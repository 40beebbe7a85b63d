-- ===== src/Actor/Tests.antt =====
-- Small runs of the process context and the table of thread ids.
use objective_9c.Prelude.{◌≡◌, refl, List, [], ◌∷◌, arith}
use objective_9c.Actor.{ActorTid, actor_tid_put, actor_tid_remove}
use objective_9c.Actor.Tids.{IsMap, tids-IsMap}

-- channel 7 in the second slot, the first one free
abbrev table : List ActorTid
table = record { chan = 0; tid = 0 } ∷ record { chan = 7; tid = 70 } ∷ []

table-IsMap : IsMap table
table-IsMap c h = ground arith

tids-IsMap_example : IsMap (actor_tid_put table 8 80) × IsMap (actor_tid_remove table 8)
tids-IsMap_example = tids-IsMap table 8 80 table-IsMap (omega arith)

put_over_own :
    actor_tid_put table 7 71 ≡ record { chan = 0; tid = 0 } ∷ record { chan = 7; tid = 71 } ∷ []
unfolding actor_tid_put
put_over_own = refl

-- A full table gives up its first entry.
put_full :
    actor_tid_put (record { chan = 7; tid = 70 } ∷ []) 8 80 ≡ record { chan = 8; tid = 80 } ∷ []
unfolding actor_tid_put
put_full = refl

-- ===== src/ObjTable/Tests.antt =====
-- Small runs of the object table.
use objective_9c.ObjTable.Names.{TakesFree, long_name_lost}
use objective_9c.Prelude.{
  ℕ, zero, suc, ◌^◌, ◌≡◌, refl, ◌≢◌, [], ◌∷◌, some, none, true, false, arith, codes, get_elem?,
  replicate, Bytes, inr,
}
use objective_9c.ObjTable.{
  ObjEntry, ObjTab, register, unregister, resolve, handle_of, probe, place, occupy, free_entry,
  next_gen, inited_table, first_of_free, vacant, home, hash, empty_table,
}
use objective_9c.ObjTable.Handle.{
  IsSized, IsYoung, Resolves, register_resolve, resolve_of_old_entry,
}
use objective_9c.ObjTable.Again.{register_again}
use objective_9c.ObjTable.Stale.{unregister_revokes, stale_forever, run, reg, unreg}

abbrev blank : ObjEntry
blank = record {
  gen = 0;
  active = false;
  class = [];
  oid = [];
  inst = 0;
  dispatch_chan = 0;
  mb = 0;
}

abbrev start : ObjTab
start = record { entries = replicate 256 blank; hash_tab = replicate 256 vacant; inited = true }

replicate-blank : (n i : ℕ) (e : ObjEntry) → get_elem? (replicate n blank) i ≡ some e → e ≡ blank
replicate-blank zero i e h = cc
replicate-blank (suc n) zero e h = cc
replicate-blank (suc n) (suc i) e h = replicate-blank n i e h

start-IsYoung : IsYoung start
start-IsYoung i e h = let eq = replicate-blank 256 i e h in rw eq (omega arith)

start-IsSized : IsSized start
start-IsSized = (refl, refl)

first_handle : (register start (codes "App") (codes "c1") 5 9).0 ≡ 2 ^ 16
unfolding register place occupy probe home hash free_entry inited_table handle_of next_gen
    first_of_free
first_handle = refl

first-ne-zero : (register start (codes "App") (codes "c1") 5 9).0 ≢ 0
first-ne-zero = omega (arith, first_handle)

register_resolve_example :
    Resolves (register start (codes "App") (codes "c1") 5 9) (codes "App") (codes "c1") 5 9
register_resolve_example =
    register_resolve start (codes "App") (codes "c1") 5 9 start-IsSized start-IsYoung (omega arith)
      (omega arith) first-ne-zero

register_again_example :
    (register (register start (codes "App") (codes "c1") 5 9).1 (codes "App") (codes "c1") 6 0).0
    ≡ (register start (codes "App") (codes "c1") 5 9).0
register_again_example =
    register_again start (codes "App") (codes "c1") 5 9 6 0 start-IsSized (omega arith)
      (omega arith) first-ne-zero

unregister_revokes_example :
    resolve
      (unregister (register start (codes "App") (codes "c1") 5 9).1 (codes "App") (codes "c1"))
      (register start (codes "App") (codes "c1") 5 9).0
    ≡ none
unregister_revokes_example =
    unregister_revokes start (codes "App") (codes "c1") 5 9 start-IsSized start-IsYoung
      (omega arith) (omega arith) first-ne-zero

-- an entry that was registered and unregistered 32768 times
abbrev worn : ObjTab
worn = record start { entries = record blank { gen = 2 ^ 16 } ∷ replicate 255 blank }

resolve_of_old_entry_example : resolve worn (handle_of (2 ^ 16) 0) ≡ none
resolve_of_old_entry_example =
    resolve_of_old_entry worn 0 (record blank { gen = 2 ^ 16 }) refl (omega arith) (omega arith)

stale_forever_example :
    resolve
      (run worn (reg (codes "App") (codes "c1") 5 9 ∷ unreg (codes "App") (codes "c1") ∷ []))
      (handle_of 7 0)
    ≡ none
stale_forever_example =
    stale_forever (reg (codes "App") (codes "c1") 5 9 ∷ unreg (codes "App") (codes "c1") ∷ []) worn
      0 7 (record blank { gen = 2 ^ 16 }) (omega arith) (omega arith) refl (omega arith)
      (omega arith)

abbrev long_name : Bytes
long_name = replicate 70 b'a'

long_name_lost_example :
    (unregister (run empty_table (reg (codes "App") long_name 5 9 ∷ [])) (codes "App") long_name
      ≡ run empty_table (reg (codes "App") long_name 5 9 ∷ []))
    × TakesFree
        (run empty_table (reg (codes "App") long_name 5 9 ∷ []))
        (register
          (run empty_table (reg (codes "App") long_name 5 9 ∷ []))
          (codes "App")
          long_name
          5
          9).0
long_name_lost_example =
    long_name_lost (reg (codes "App") long_name 5 9 ∷ []) (codes "App") long_name 5 9
      (inr (omega arith))

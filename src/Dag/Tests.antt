-- ===== src/Dag/Tests.antt =====
-- Small runs of the wait-for graph: 1 waits for 2, and 2 for 3.
use objective_9c.Prelude.{
  ℕ, ◌≡◌, refl, ◌↔◌, ◌⊎◌, ◌<◌, [], ◌∷◌, ◌++◌, some, none, true, false, arith, codes, take, length,
  Bytes, ◌-◌, length-take, take_all,
}
use objective_9c.Prelude.Libc.{Libc}
use objective_9c.Actor.{ProcCtx}
use objective_9c.Dag.{
  Edge, Edges, first_callee, follow, path_exists, new_edge, call_begin, find_edge, call_end, purge,
  actor_exit, waiting_for,
}
use objective_9c.Dag.Walk.{WaitsFor, path_exists_lem}
use objective_9c.Dag.Acyclic.{IsAcyclic}
use objective_9c.Dag.Begin.{IsValid, call_begin_exact}
use objective_9c.Dag.System.{Reach, start, next, begin, Reach-IsValid}

-- a formatter that cuts a text to the buffer, as C's would if every character had one byte
cut_fits : (n : ℕ) (s : Bytes) → length s < n → take (n - 1) s ≡ s
cut_fits n s h = take_all (n - 1) s (omega arith)

cut_bound : (n : ℕ) (s : Bytes) → 0 < n → length (take (n - 1) s) < n
cut_bound n s h = omega (arith, length-take (n - 1) s)

abbrev ascii : Libc
ascii = record {
  snprint = λ n s. take (n - 1) s;
  snprint_fits = cut_fits;
  snprint_bound = cut_bound;
  pointer_text = λ p. codes "0x";
}

abbrev actor : ℕ → ProcCtx
actor chan = record {
  err = none;
  werrstr = [];
  actor_chan = chan;
  actor_active = true;
  actor_oid = codes "a";
  userbuf = [];
  caller = none;
  blessed = false;
}

abbrev from_to : ℕ → ℕ → Edge
from_to a b = record {
  caller = a;
  callee = b;
  caller_oid = codes "a";
  callee_oid = codes "b";
  method = codes "m";
}

abbrev chain : Edges
chain = from_to 1 2 ∷ from_to 2 3 ∷ []

begin_first :
    call_begin ascii (actor 1) [] 2 (some (codes "b")) (some (codes "m"))
    ≡ (true, actor 1, from_to 1 2 ∷ [])
unfolding call_begin path_exists follow new_edge
begin_first = refl

-- 3 may not call 1
begin_cycle : (call_begin ascii (actor 3) chain 1 none (some (codes "get"))).0 ≡ false
unfolding call_begin path_exists follow first_callee
begin_cycle = refl

begin_cycle_text :
    (call_begin ascii (actor 3) chain 1 none (some (codes "get"))).1.err
    ≡ some (codes "actor call cycle detected on get()")
unfolding call_begin path_exists follow first_callee
begin_cycle_text = refl

chain-Reach : Reach ascii chain
unfolding call_begin path_exists follow first_callee new_edge
chain-Reach =
    next (next start (begin (actor 1) [] 2 (some (codes "b")) (some (codes "m")) refl))
      (begin (actor 2) (from_to 1 2 ∷ []) 3 (some (codes "b")) (some (codes "m")) refl)

chain-IsValid : IsValid chain
chain-IsValid = Reach-IsValid chain-Reach

Reach-IsValid_example : IsValid chain
Reach-IsValid_example = Reach-IsValid chain-Reach

path_exists_lem_example : (path_exists chain 1 3 ≡ true) ↔ ((◌≡◌ {A = ℕ} 1 3) ⊎ WaitsFor chain 1 3)
path_exists_lem_example = path_exists_lem chain 1 3 chain-IsValid.single (omega arith) (omega arith)

call_begin_exact_example :
    ((call_begin ascii (actor 3) chain 1 none none).0 ≡ false)
    ↔ ¬ IsAcyclic (chain ++ new_edge ascii (actor 3) 1 none none ∷ [])
call_begin_exact_example =
    call_begin_exact ascii (actor 3) chain 1 none none (omega arith) (omega arith) chain-IsValid

end_first : call_end (actor 1) chain 2 ≡ from_to 2 3 ∷ []
unfolding call_end find_edge
end_first = refl

exit_middle : (actor_exit chain [] 2).0 ≡ []
unfolding actor_exit purge
exit_middle = refl

waiting_second : waiting_for ascii chain 2 64 0 ≡ some (some (codes "b"), none)
unfolding waiting_for
waiting_second = refl

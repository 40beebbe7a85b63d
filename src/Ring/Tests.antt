-- ===== src/Ring/Tests.antt =====
-- Runs of the rings on small inputs, one of them where both counters wrap.
use objective_9c.Ring.Completions.{complete_all, complete_all_lem, poll_refines}
use objective_9c.Prelude.{
  ℕ, ◌-◌, ◌^◌, ◌≡◌, refl, List, [], ◌∷◌, some, none, true, false, set, replicate, arith, take,
}
use objective_9c.Ring.{Ring, submit, consume, ring_len, poll}
use objective_9c.Ring.Queue.{Op, put, get, enqueue, dequeue, answers}
use objective_9c.Ring.Refine.{
  IsValid, contents, run, submit_refines, consume_refines, run_refines, submit-IsValid,
  consume-IsValid, ring_len_lem,
}

-- one element, 7, and the next one goes to the last slot before `head` wraps to 0
abbrev wrapping : Ring ℕ
wrapping = record { head = 2 ^ 32 - 1; tail = 2 ^ 32 - 2; slots = set (replicate 64 0) 62 7 }

wrapping-IsValid : IsValid wrapping
wrapping-IsValid = omega arith

abbrev script : List (Op ℕ)
script = put 8 ∷ put 9 ∷ get ∷ get ∷ get ∷ get ∷ []

run-wrapping :
    run wrapping script
    ≡ (true, none)
      ∷ (true, none)
      ∷ (true, some 7)
      ∷ (true, some 8)
      ∷ (true, some 9)
      ∷ (false, none)
      ∷ []
unfolding run submit consume
run-wrapping = refl

submit_refines_example :
    ((submit wrapping 8).0, contents 0 (submit wrapping 8).1) ≡ enqueue 64 (7 ∷ []) 8
submit_refines_example = submit_refines 0 8 wrapping-IsValid

consume_refines_example :
    ((consume wrapping).0, (consume wrapping).1, contents 0 (consume wrapping).2) ≡ dequeue (7 ∷ [])
consume_refines_example = consume_refines 0 wrapping-IsValid

run_refines_example : run wrapping script ≡ answers 64 (7 ∷ []) script
run_refines_example = run_refines 0 script wrapping-IsValid

submit-IsValid_example : IsValid (submit wrapping 8).1
submit-IsValid_example = submit-IsValid 8 wrapping-IsValid

consume-IsValid_example : IsValid (consume wrapping).2
consume-IsValid_example = consume-IsValid wrapping-IsValid

ring_len_lem_example : ring_len wrapping ≡ 1
ring_len_lem_example = ring_len_lem 0 wrapping

complete_all_lem_example :
    contents 0 (complete_all wrapping (8 ∷ 9 ∷ [])) ≡ take 64 (7 ∷ 8 ∷ 9 ∷ [])
complete_all_lem_example = complete_all_lem 0 wrapping (8 ∷ 9 ∷ []) wrapping-IsValid

poll_refines_example :
    ((poll wrapping).0, (poll wrapping).1, contents 0 (poll wrapping).2) ≡ dequeue (7 ∷ [])
poll_refines_example = poll_refines 0 wrapping-IsValid

-- ===== src/Router/Workers.antt =====
-- The worker processes of one mailbox: o9_router_worker beside o9_router_submit and
-- o9_router_unregister_actor, in any interleaving. A worker is in its loop, or has left it and is
-- before the last qlock of the function. Serving a request is one step: only the ring and
-- `worker_running` decide which workers there are.
use objective_9c.Prelude.{
  ℕ, zero, suc, ◌+◌, ◌-◌, ◌≤◌, ◌<◌, ◌≡◌, refl, ◌⊎◌, inr, Bool, true, false, arith, subst, sym,
}
use objective_9c.Ring.{ring_size}

pub record Pool : Type 0 where
  -- o9_tring_len(&mb->ring.t_ring)
  pub queue : ℕ
  pub worker_running : Bool
  pub closed : Bool
  -- workers in the `for(;;)` loop
  pub looping : ℕ
  -- workers between the loop and the last qlock
  pub leaving : ℕ

abbrev pub fresh_pool : Pool
fresh_pool = record { queue = 0; worker_running = false; closed = false; looping = 0; leaving = 0 }

-- `spawns` says that proccreate succeeds.
pub data Step (spawns : Bool) (s t : Pool) : Type 0 where
  -- o9_router_submit, with a worker and without
  submit_running :
      s.closed ≡ false
      → s.queue < ring_size
      → s.worker_running ≡ true
      → t ≡ record s { queue = s.queue + 1 }
      → Step spawns s t
  submit_starting :
      s.closed ≡ false
      → s.queue < ring_size
      → s.worker_running ≡ false
      → spawns ≡ true
      → t ≡ record s { queue = s.queue + 1; worker_running = true; looping = s.looping + 1 }
      → Step spawns s t
  -- o9_tring_consume in the loop, and the request served
  serve :
      0 < s.looping
      → s.closed ≡ false
      → 0 < s.queue
      → t ≡ record s { queue = s.queue - 1 }
      → Step spawns s t
  -- nothing to do: `worker_running = 0` under qlock, and out of the loop
  rest :
      0 < s.looping
      → s.queue ≡ 0
      → t ≡ record s { worker_running = false; looping = s.looping - 1; leaving = s.leaving + 1 }
      → Step spawns s t
  -- the mailbox is closed: out of the loop
  stop :
      0 < s.looping
      → s.closed ≡ true
      → t ≡ record s { looping = s.looping - 1; leaving = s.leaving + 1 }
      → Step spawns s t
  -- the end of the function: `worker_running = 0`, and a new worker if requests wait
  restart :
      0 < s.leaving
      → s.closed ≡ false
      → 0 < s.queue
      → spawns ≡ true
      → t ≡ record s { worker_running = true; looping = s.looping + 1; leaving = s.leaving - 1 }
      → Step spawns s t
  restart_fails :
      0 < s.leaving
      → s.closed ≡ false
      → 0 < s.queue
      → spawns ≡ false
      → t ≡ record s { worker_running = true; leaving = s.leaving - 1 }
      → Step spawns s t
  finish :
      0 < s.leaving
      → (s.closed ≡ true) ⊎ (s.queue ≡ 0)
      → t ≡ record s { worker_running = false; leaving = s.leaving - 1 }
      → Step spawns s t
  -- o9_router_unregister_actor: closed and drained
  unregister : t ≡ record s { closed = true; queue = 0 } → Step spawns s t
  -- o9_router_get_mailbox_locked opens a mailbox of the same name again
  reopen : t ≡ record s { closed = false } → Step spawns s t

pub data Reach (spawns : Bool) : Pool → Type 0 where
  start : Reach spawns fresh_pool
  next : {s t : Pool} → Reach spawns s → Step spawns s t → Reach spawns t

-- the state of a mailbox without requests that `n` workers serve
abbrev pub serving : ℕ → Pool
serving n = record { queue = 0; worker_running = true; closed = false; looping = n; leaving = 0 }

-- One worker has nothing to do and leaves its loop; a submission starts the next one, which serves
-- the request before the first one ends; the end of the first makes the next submission start a third.
one_more : (n : ℕ) → Reach true (serving (n + 1)) → Reach true (serving (n + 2))
one_more n r =
    let resting = record (serving n) { worker_running = false; leaving = 1 } in
    let asked = record (serving (n + 1)) { queue = 1; leaving = 1 } in
    let served = record (serving (n + 1)) { leaving = 1 } in
    let ended = record (serving (n + 1)) { worker_running = false } in
    let asked_again = record (serving (n + 2)) { queue = 1 } in
    let s1 : Step true (serving (n + 1)) resting = rest (omega arith) refl (ground arith) in
    let s2 : Step true resting asked = submit_starting refl (omega arith) refl refl refl in
    let s3 : Step true asked served = serve (omega arith) refl (omega arith) refl in
    let s4 : Step true served ended = finish (omega arith) (inr refl) refl in
    let s5 : Step true ended asked_again =
      submit_starting refl (omega arith) refl refl (ground arith) in
    let s6 : Step true asked_again (serving (n + 2)) =
      serve (omega arith) refl (omega arith) refl in
    next (next (next (next (next (next r s1) s2) s3) s4) s5) s6

-- While proccreate succeeds, any number of workers can come to serve one mailbox at the same time: one that has left its loop
-- sets `worker_running` to 0 a second time, after a submission has started the next worker.
pub many_workers : (n : ℕ) → Reach true (serving (suc n))
many_workers zero =
    let asked = record (serving 1) { queue = 1 } in
    let s1 : Step true fresh_pool asked = submit_starting refl (omega arith) refl refl refl in
    let s2 : Step true asked (serving 1) = serve (omega arith) refl (omega arith) refl in
    next (next start s1) s2
many_workers (suc n) =
    let e : n + 1 ≡ suc n = omega arith in
    let f : n + 2 ≡ suc (suc n) = omega arith in
    subst (λ k. Reach true (serving k)) f
      (one_more n (subst (λ k. Reach true (serving k)) (sym e) (many_workers n)))

-- what keeps requests from being stranded
pub record IsAttended (s : Pool) : Type 0 where
  pub attended : 0 < s.queue → 0 < s.looping + s.leaving
  pub running_means : s.worker_running ≡ true → 0 < s.looping + s.leaving
  pub bounded : s.queue ≤ ring_size
  pub closed_empty : s.closed ≡ true → s.queue ≡ 0

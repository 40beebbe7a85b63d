-- ===== src/Sync.antt =====
-- The semaphores and wait groups of o9_runtime.c, on handles that are not nil (o9_sync_sem_new,
-- o9_sync_sem_acquire, o9_sync_sem_release, o9_sync_wg_new, o9_sync_wg_add, o9_sync_wg_done,
-- o9_sync_wg_wait). Each function holds the object's QLock but for the time that it sleeps, so what it does between is one step: on
-- entry, and again each time that it has been woken. The counts are taken to fit their int. Beside
-- the object a state counts the callers that sleep in rsleep, those that are woken and wait for
-- the lock, and the calls that have returned.
pub mod Semaphore
pub mod Waiters
pub mod Tests
use objective_9c.Prelude.{ℕ, zero, suc, ◌+◌, ◌-◌, Bool, true, false, ◌==◌, if◌then◌else◌}
use objective_9c.Prelude.Int.{ℤ, pos, negsuc, pos_part, neg_part, sub_ℕ}

pub record Sem : Type 0 where
  pub n : ℕ
  pub asleep : ℕ
  pub ready : ℕ
  pub acquired : ℕ
  pub released : ℕ

pub record WaitGroup : Type 0 where
  pub n : ℤ
  pub asleep : ℕ
  pub ready : ℕ
  pub returned : ℕ

unfoldable pub sem_new : ℤ → Sem
sem_new count = record {
  n = elim count [ negsuc m ↦ 0 | pos m ↦ m ];
  asleep = 0;
  ready = 0;
  acquired = 0;
  released = 0;
}

-- the test of the loop: the caller takes one, or sleeps
unfoldable pub sem_acquire : Sem → Sem
sem_acquire s =
    if s.n == 0
    then record s { asleep = s.asleep + 1 }
    else record s { n = s.n - 1; acquired = s.acquired + 1 }

-- a caller that was woken goes round the loop
unfoldable pub sem_resume : Sem → Sem
sem_resume s = sem_acquire (record s { ready = s.ready - 1 })

unfoldable pub wg_new : WaitGroup
wg_new = record { n = pos 0; asleep = 0; ready = 0; returned = 0 }

-- n > 0
unfoldable pub is_pos : ℤ → Bool
is_pos (negsuc m) = false
is_pos (pos zero) = false
is_pos (pos (suc m)) = true

unfoldable pub wg_wait : WaitGroup → WaitGroup
wg_wait w =
    if is_pos w.n
    then record w { asleep = w.asleep + 1 }
    else record w { returned = w.returned + 1 }

unfoldable pub wg_resume : WaitGroup → WaitGroup
wg_resume w = wg_wait (record w { ready = w.ready - 1 })

-- `wakes k` is how many of `k` sleeping callers one rwakeup wakes.
module _ (wakes : ℕ → ℕ) where
  unfoldable pub sem_release : Sem → Sem
  sem_release s = record s {
    n = s.n + 1;
    asleep = s.asleep - wakes s.asleep;
    ready = s.ready + wakes s.asleep;
    released = s.released + 1;
  }

  unfoldable pub wg_add : WaitGroup → ℤ → WaitGroup
  wg_add w delta =
      let m = sub_ℕ (pos_part w.n + pos_part delta) (neg_part w.n + neg_part delta) in
      if is_pos m
      then record w { n = m }
      else record w { n = m; asleep = w.asleep - wakes w.asleep; ready = w.ready + wakes w.asleep }

  unfoldable pub wg_done : WaitGroup → WaitGroup
  wg_done w = wg_add w (negsuc 0)

-- ===== src/Sync/Tests.antt =====
-- A semaphore of one permit, and a group with three waiters.
use objective_9c.Prelude.{ℕ, zero, suc, ◌≡◌, refl}
use objective_9c.Prelude.Int.{pos}
use objective_9c.Sync.{sem_new, sem_acquire, sem_release, wg_new, wg_resume, wg_add, wg_done}
use objective_9c.Sync.Semaphore.{WakesOne, Step, Reach, IsFair, Reach-IsFair}
use objective_9c.Sync.Waiters.{waits, wg_done-strands}

abbrev one : ℕ → ℕ
one zero = 0
one (suc k) = 1

one-WakesOne : WakesOne one
one-WakesOne = record { none_asleep = refl; some_asleep = λ k. refl }

Reach-IsFair_example :
    IsFair (sem_new (pos 1)).n (sem_release one (sem_acquire (sem_acquire (sem_new (pos 1)))))
Reach-IsFair_example =
    Reach-IsFair one-WakesOne
      (Reach.next (Reach.next (Reach.next Reach.start Step.acquire) Step.acquire) Step.release)

wg_done-strands_example :
    wg_resume (wg_done one (waits 3 (wg_add one wg_new (pos 1))))
    ≡ record { n = pos 0; asleep = 2; ready = 0; returned = 1 }
wg_done-strands_example = wg_done-strands one 2 one-WakesOne

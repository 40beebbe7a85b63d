-- ===== src/Sync/Waiters.antt =====
-- Several callers that wait for one group.
use objective_9c.Prelude.{ℕ, zero, suc, ◌+◌, ◌-◌, ◌≡◌, refl, ap, ◌∙◌, arith}
use objective_9c.Prelude.Int.{pos}
use objective_9c.Sync.{WaitGroup, wg_new, is_pos, wg_wait, wg_resume, wg_add, wg_done}
use objective_9c.Sync.Semaphore.{WakesOne}

-- `k` callers that enter o9_sync_wg_wait
abbrev pub waits : ℕ → WaitGroup → WaitGroup
waits zero w = w
waits (suc k) w = waits k (wg_wait w)

-- a group of one task, before the task is done
abbrev busy : ℕ → WaitGroup
busy k = record { n = pos 1; asleep = k; ready = 0; returned = 0 }

waits-busy : (k a : ℕ) → waits k (busy a) ≡ busy (a + k)
unfolding wg_wait is_pos
waits-busy zero a = ap busy (omega arith)
waits-busy (suc k) a =
    let e : waits k (busy (a + 1)) ≡ busy (a + 1 + k) = waits-busy k (a + 1) in
    e ∙ ap busy (omega arith)

-- When one task ends for which several callers wait, and rwakeup wakes one sleeping process, one
-- caller returns, and all the others sleep on, with no task left whose end could wake them.
pub wg_done-strands :
    (wakes : ℕ → ℕ) (k : ℕ)
    → WakesOne wakes
    → wg_resume (wg_done wakes (waits (suc k) (wg_add wakes wg_new (pos 1))))
      ≡ record { n = pos 0; asleep = k; ready = 0; returned = 1 }
unfolding wg_new wg_add wg_done wg_resume wg_wait is_pos
wg_done-strands wakes k w =
    let all : waits (suc k) (busy 0) ≡ busy (suc k) =
      waits-busy (suc k) 0 ∙ ap busy (omega arith) in
    let one : wakes (suc k) ≡ 1 = w.some_asleep k in
    let rest : suc k - 1 ≡ k = omega arith in rw all (rw (one, rest) refl)

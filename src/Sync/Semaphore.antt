-- ===== src/Sync/Semaphore.antt =====
-- What a semaphore keeps, whatever its callers do.
use objective_9c.Prelude.{
  ℕ, suc, ◌+◌, ◌-◌, ◌≤◌, ◌<◌, ◌≡◌, refl, ◌⊎◌, inl, inr, false, ◌==◌, arith, Bool-cases, if_ind, ap,
  ◌∙◌,
}
use objective_9c.Prelude.Int.{ℤ}
use objective_9c.Sync.{Sem, sem_new, sem_acquire, sem_resume, sem_release}

-- rwakeup as its manual describes it: it wakes one sleeping process, if there is one
pub record WakesOne (wakes : ℕ → ℕ) : Type 0 where
  pub none_asleep : wakes 0 ≡ 0
  pub some_asleep : (k : ℕ) → wakes (suc k) ≡ 1

pub data Step (wakes : ℕ → ℕ) (s : Sem) : Sem → Type 0 where
  acquire : Step wakes s (sem_acquire s)
  resume : 0 < s.ready → Step wakes s (sem_resume s)
  release : Step wakes s (sem_release wakes s)

pub data Reach (wakes : ℕ → ℕ) (count : ℤ) : Sem → Type 0 where
  start : Reach wakes count (sem_new count)
  next : {s t : Sem} → Reach wakes count s → Step wakes s t → Reach wakes count t

pub record IsFair (first : ℕ) (s : Sem) : Type 0 where
  -- no permit is lost or made up
  pub kept : s.n + s.acquired ≡ first + s.released
  -- nobody sleeps while a permit is free that no woken caller is about to take
  pub served : (s.asleep ≡ 0) ⊎ (s.n ≤ s.ready)

-- an attempt to take a permit, when one permit more may be free than callers are woken
attempt-IsFair :
    (first : ℕ) (s : Sem)
    → s.n + s.acquired ≡ first + s.released
    → (s.asleep ≡ 0) ⊎ (s.n ≤ s.ready + 1)
    → IsFair first (sem_acquire s)
unfolding sem_acquire
attempt-IsFair first s kept served =
    if_ind (IsFair first) (s.n == 0) _ _
      (λ out. record { kept = kept; served = inr (ground arith) })
      (λ some_free. record {
        kept = ground arith;
        served = elim served [ inl z ↦ inl z | inr le ↦ inr (omega arith) ];
      })

release-IsFair :
    {wakes : ℕ → ℕ}
    → WakesOne wakes
    → (first : ℕ) (s : Sem) → IsFair first s
    → IsFair first (sem_release wakes s)
unfolding sem_release
release-IsFair {wakes} w first s f = record {
  kept = let k = f.kept in omega (arith, k);
  served = elim (Bool-cases (s.asleep == 0)) [
    | inl nobody ↦ inl (ground arith)
    | inr somebody ↦
        inr (elim f.served [ inl z ↦ absurd (ground arith) | inr le ↦ one_more somebody le ])
  ];
}
  where
    one_more : (s.asleep == 0) ≡ false → s.n ≤ s.ready → s.n + 1 ≤ s.ready + wakes s.asleep
    one_more h le =
        let e : s.asleep ≡ suc (s.asleep - 1) = ground arith in
        let one : wakes s.asleep ≡ 1 = ap wakes e ∙ w.some_asleep (s.asleep - 1) in
        omega (arith, one)

Step-IsFair :
    {wakes : ℕ → ℕ}
    → WakesOne wakes
    → (first : ℕ) {s t : Sem} → IsFair first s
    → Step wakes s t
    → IsFair first t
unfolding sem_resume
Step-IsFair w first {s} f acquire =
    attempt-IsFair first s f.kept (elim f.served [ inl z ↦ inl z | inr le ↦ inr (omega arith) ])
Step-IsFair w first {s} f (resume some_ready) =
    attempt-IsFair first (record s { ready = s.ready - 1 }) f.kept
      (elim f.served [ inl z ↦ inl z | inr le ↦ inr (omega arith) ])
Step-IsFair w first {s} f release = release-IsFair w first s f

-- In every order of calls and wakeups, if rwakeup wakes one sleeping process: the permits that are
-- free and those that were taken are the first ones and those released; and nobody sleeps while more
-- permits are free than woken callers are about to take.
pub Reach-IsFair :
    {wakes : ℕ → ℕ} {count : ℤ} {s : Sem}
    → WakesOne wakes
    → Reach wakes count s
    → IsFair (sem_new count).n s
unfolding sem_new
Reach-IsFair {count} w start = record { kept = refl; served = inl refl }
Reach-IsFair {count} w (next r st) = Step-IsFair w (sem_new count).n (Reach-IsFair w r) st

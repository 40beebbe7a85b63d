-- ===== src/Ring/Queue.antt =====
-- What the rings promise: a first-in first-out queue that holds at most `cap` elements.
use objective_9c.Prelude.{
  ℕ, List, [], ◌∷◌, ◌++◌, Option, some, none, Bool, true, false, ltb, if◌then◌else◌, length,
}

pub data Op {ℓ} (A : Type ℓ) : Type ℓ where
  put : A → Op A
  get : Op A

module _ {ℓ} {A : Type ℓ} where
  unfoldable pub enqueue : ℕ → List A → A → Bool × List A
  enqueue cap q x = if ltb (length q) cap then (true, q ++ x ∷ []) else (false, q)

  unfoldable pub dequeue : List A → Bool × Option A × List A
  dequeue [] = (false, none, [])
  dequeue (x ∷ q) = (true, some x, q)

  -- the answers to a sequence of calls
  unfoldable pub answers : ℕ → List A → List (Op A) → List (Bool × Option A)
  answers cap q [] = []
  answers cap q (put x ∷ ops) = let (b, q') = enqueue cap q x in (b, none) ∷ answers cap q' ops
  answers cap q (get ∷ ops) = let (b, o, q') = dequeue q in (b, o) ∷ answers cap q' ops

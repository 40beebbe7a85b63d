-- ===== src/Prelude/Count.antt =====
-- Counting the elements that pass a test, and the array idiom that removes an element by moving
-- the last one into its place.
use Prim.Native.Nat.{ℕ, zero, suc, ◌+◌, ◌-◌, ◌≤◌, ◌<◌}
use mathlib.Core.Path.{◌≡◌, refl, ap, ◌∙◌}
use mathlib.Core.Bool.{Bool, true}
use mathlib.Core.Option.{none, some}
use mathlib.Core.List.{List, [], ◌∷◌, ◌++◌}
use native.Mathlib.Omega.{arith}
use objective_9c.Prelude.Tests.{if◌then◌else◌}
use objective_9c.Prelude.Lists.{length, set, get_elem?, take, length-set, length-take}

abbrev pub ind : Bool → ℕ
ind b = if b then 1 else 0

module _ {ℓ} {A : Type ℓ} where
  abbrev pub count : (A → Bool) → List A → ℕ
  count p [] = 0
  count p (x ∷ xs) = ind (p x) + count p xs

  pub count-append : (p : A → Bool) (xs ys : List A) → count p (xs ++ ys) ≡ count p xs + count p ys
  count-append p [] ys = omega arith
  count-append p (x ∷ xs) ys = omega (arith, count-append p xs ys)

  pub count-set :
      (p : A → Bool) (xs : List A) (i : ℕ) (x y : A)
      → get_elem? xs i ≡ some x
      → count p (set xs i y) + ind (p x) ≡ count p xs + ind (p y)
  count-set p [] i x y h = cc
  count-set p (z ∷ xs) zero x y h = let e : z ≡ x = cc in rw e (omega arith)
  count-set p (z ∷ xs) (suc i) x y h = omega (arith, count-set p xs i x y h)

  count-take :
      (p : A → Bool) (xs : List A) (n : ℕ) (x : A)
      → length xs ≡ suc n
      → get_elem? xs n ≡ some x
      → count p (take n xs) + ind (p x) ≡ count p xs
  count-take p [] n x e h = cc
  count-take p (z ∷ []) zero x e h = let e' : z ≡ x = cc in rw e' (omega arith)
  count-take p (z ∷ w ∷ xs) zero x e h = absurd (omega arith)
  count-take p (z ∷ xs) (suc n) x e h = omega (arith, count-take p xs n x (omega arith) h)

  -- `xs[i] = xs[n - 1]; n--` on an array of `n` used elements
  abbrev pub remove_at : List A → ℕ → List A
  remove_at xs i = elim (get_elem? xs (length xs - 1)) [
    | none ↦ xs
    | some y ↦ take (length xs - 1) (set xs i y)
  ]

  last_elem :
      (xs : List A) (i : ℕ) (x : A)
      → get_elem? xs i ≡ some x
      → (y : A) × (get_elem? xs (length xs - 1) ≡ some y)
  last_elem [] i x h = cc
  last_elem (z ∷ []) i x h = (z, refl)
  last_elem (z ∷ w ∷ xs) i x h =
      let (y, e) = last_elem (w ∷ xs) 0 w refl in
      let same : length (z ∷ w ∷ xs) - 1 ≡ suc (length (w ∷ xs) - 1) = omega arith in (y, rw same e)

  pub lt-length_of_get : (xs : List A) (i : ℕ) (x : A) → get_elem? xs i ≡ some x → i < length xs
  lt-length_of_get [] i x h = cc
  lt-length_of_get (z ∷ xs) zero x h = omega arith
  lt-length_of_get (z ∷ xs) (suc i) x h = omega (arith, lt-length_of_get xs i x h)

  get-set_last :
      (xs : List A) (i j : ℕ) (x y : A)
      → get_elem? xs i ≡ some x
      → get_elem? xs j ≡ some y
      → get_elem? (set xs i y) j ≡ some y
  get-set_last [] i j x y h k = cc
  get-set_last (z ∷ xs) zero zero x y h k = refl
  get-set_last (z ∷ xs) zero (suc j) x y h k = k
  get-set_last (z ∷ xs) (suc i) zero x y h k = k
  get-set_last (z ∷ xs) (suc i) (suc j) x y h k = get-set_last xs i j x y h k

  -- Removing takes one occurrence of the element at `i` away, and nothing else.
  pub count-remove_at :
      (p : A → Bool) (xs : List A) (i : ℕ) (x : A)
      → get_elem? xs i ≡ some x
      → count p (remove_at xs i) + ind (p x) ≡ count p xs
  count-remove_at p xs i x h =
      let (y, last) = last_elem xs i x h in
      let pos = lt-length_of_get xs i x h in
      rw (last, remove_at)
        (omega (
          arith,
          count-set p xs i x y h,
          count-take p (set xs i y) (length xs - 1) y (omega (arith, length-set xs i y))
              (get-set_last xs i (length xs - 1) x y h last),
        ))

  pub length-remove_at :
      (xs : List A) (i : ℕ) (x : A)
      → get_elem? xs i ≡ some x
      → suc (length (remove_at xs i)) ≡ length xs
  length-remove_at xs i x h =
      let (y, last) = last_elem xs i x h in
      let pos = lt-length_of_get xs i x h in
      rw (last, remove_at)
        (omega (arith, length-take (length xs - 1) (set xs i y), length-set xs i y))

  take-take : (i m : ℕ) (xs : List A) → i ≤ m → take i (take m xs) ≡ take i xs
  take-take zero m xs h = refl
  take-take (suc i) zero xs h = absurd (omega arith)
  take-take (suc i) (suc m) [] h = refl
  take-take (suc i) (suc m) (x ∷ xs) h = ap (λ r. x ∷ r) (take-take i m xs (omega arith))

  take-set : (xs : List A) (i : ℕ) (y : A) → take i (set xs i y) ≡ take i xs
  take-set [] i y = refl
  take-set (x ∷ xs) zero y = refl
  take-set (x ∷ xs) (suc i) y = ap (λ r. x ∷ r) (take-set xs i y)

  -- The elements before the removed one stay where they are.
  pub take-remove_at :
      (xs : List A) (i : ℕ) (x : A) → get_elem? xs i ≡ some x → take i (remove_at xs i) ≡ take i xs
  take-remove_at xs i x h =
      let (y, last) = last_elem xs i x h in
      let pos = lt-length_of_get xs i x h in
      rw (last, remove_at)
        (take-take i (length xs - 1) (set xs i y) (omega arith) ∙ take-set xs i y)

  pub count-take_suc :
      (q : A → Bool) (xs : List A) (i : ℕ) (x : A)
      → get_elem? xs i ≡ some x
      → count q (take (i + 1) xs) ≡ count q (take i xs) + ind (q x)
  count-take_suc q [] i x h = cc
  count-take_suc q (z ∷ xs) zero x h = let e : z ≡ x = cc in rw e (omega arith)
  count-take_suc q (z ∷ xs) (suc i) x h =
      let ih = count-take_suc q xs i x h in
      let s : i + 1 ≡ suc i = omega arith in
      let t : suc i + 1 ≡ suc (suc i) = omega arith in
      let ih' : count q (take (suc i) xs) ≡ count q (take i xs) + ind (q x) = rw s at ih in
      rw t (omega arith)

  pub length-le_of_none : (xs : List A) (i : ℕ) → get_elem? xs i ≡ none → length xs ≤ i
  length-le_of_none [] i h = omega arith
  length-le_of_none (x ∷ xs) zero h = cc
  length-le_of_none (x ∷ xs) (suc i) h = omega (arith, length-le_of_none xs i h)

  pub count-pos_of_get :
      (q : A → Bool) (xs : List A) (i : ℕ) (x : A)
      → get_elem? xs i ≡ some x
      → q x ≡ true
      → 0 < count q xs
  count-pos_of_get q [] i x h t = cc
  count-pos_of_get q (z ∷ xs) zero x h t = let e : z ≡ x = cc in rw e (ground arith)
  count-pos_of_get q (z ∷ xs) (suc i) x h t = omega (arith, count-pos_of_get q xs i x h t)

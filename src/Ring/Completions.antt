-- ===== src/Ring/Completions.antt =====
-- The ring of completions, which the router's workers fill.
use objective_9c.Prelude.{
  ℕ, zero, suc, ◌≤◌, ◌≡◌, refl, ap, ◌∙◌, sym, inl, inr, List, [], ◌∷◌, ◌++◌, append_assoc,
  append-nil, arith, length, take, take_all, Bool-cases, ltb,
}
use objective_9c.Ring.{Ring, ring_size, submit, consume, complete, poll, ring_len}
use objective_9c.Ring.Queue.{dequeue, enqueue}
use objective_9c.Ring.Refine.{
  IsValid, contents, submit-IsValid, consume_refines, ring_len_lem, submit_refines,
}

module _ {ℓ} {A : Type ℓ} where
  -- completions one after the other, whatever o9_rring_complete returns
  abbrev pub complete_all : Ring A → List A → Ring A
  complete_all r [] = r
  complete_all r (x ∷ xs) = complete_all (complete r x).1 xs

  complete-submit : (r : Ring A) (x : A) → complete r x ≡ submit r x
  unfolding complete submit
  complete-submit r x = refl

  take_front : (n : ℕ) (xs ys : List A) → n ≤ length xs → take n (xs ++ ys) ≡ take n xs
  take_front zero xs ys h = refl
  take_front (suc n) [] ys h = absurd (omega arith)
  take_front (suc n) (x ∷ xs) ys h = ap (λ r. x ∷ r) (take_front n xs ys (omega arith))

module _ {ℓ} {A : Type ℓ} (blank : A) where
  small : (r : Ring A) → IsValid r → length (contents blank r) ≤ ring_size
  unfolding ring_len
  small r v = let e = ring_len_lem blank r in let f = v.fits in omega (arith, e, f)

  -- one more completion: taken if there is room, and lost otherwise
  complete_next :
      (r : Ring A) (x : A) (xs : List A)
      → IsValid r
      → take ring_size (contents blank (submit r x).1 ++ xs)
        ≡ take ring_size (contents blank r ++ x ∷ xs)
  unfolding enqueue
  complete_next r x xs v =
      let step = ap (λ z. z.1) (submit_refines blank x v) in
      let q = contents blank r in
      elim (Bool-cases (ltb (length q) ring_size)) [
        | inl room ↦
            let e : contents blank (submit r x).1 ≡ q ++ x ∷ [] = step ∙ rw room refl in
            rw e (ap (take ring_size) (append_assoc q (x ∷ []) xs))
        | inr full ↦
            let e : contents blank (submit r x).1 ≡ q = step ∙ rw full refl in
            let long : ring_size ≤ length q = ground arith in
            rw e (take_front ring_size q xs long ∙ sym (take_front ring_size q (x ∷ xs) long))
      ]

  -- Completions that come one after the other on a valid ring are kept in order while fewer than 64 wait; the others
  -- are lost.
  pub complete_all_lem :
      (r : Ring A) (xs : List A)
      → IsValid r
      → contents blank (complete_all r xs) ≡ take ring_size (contents blank r ++ xs)
  unfolding complete submit
  complete_all_lem r [] v = sym (
      ap (take ring_size) (append-nil (contents blank r))
      ∙ take_all ring_size (contents blank r) (small r v))
  complete_all_lem r (x ∷ xs) v =
      complete_all_lem (submit r x).1 xs (submit-IsValid x v) ∙ complete_next r x xs v

  -- `o9_rring_poll` hands out the oldest completion and leaves the rest, or says that there is none.
  pub poll_refines :
      {r : Ring A}
      → IsValid r
      → ((poll r).0, (poll r).1, contents blank (poll r).2) ≡ dequeue (contents blank r)
  unfolding poll consume
  poll_refines v = consume_refines blank v

-- ===== src/Text/Slice.antt =====
-- o9_string_slice and o9_string_trim.
use objective_9c.Prelude.{
  ℕ, zero, suc, ◌+◌, ◌-◌, ◌^◌, ◌≤◌, ◌<◌, min, ◌≡◌, refl, sym, ap, ◌∙◌, inl, inr, [], ◌∷◌, some,
  none, true, false, ◌&&◌, ltb, leb, arith, tests, Bytes, length, take, drop, get_or, Bool-cases,
  take_all, length-drop, ℕ_discrete,
}
use objective_9c.Prelude.Int.{ℤ, pos}
use objective_9c.Text.{block, at_least_zero, sum_exceeds, slice, is_space, lead, trail, trim}

drop-min : (n : ℕ) (s : Bytes) → drop (min n (length s)) s ≡ drop n s
drop-min n s = elim (Bool-cases (leb n (length s))) [
  | inl small ↦ let e : min n (length s) ≡ n = ground arith in rw e refl
  | inr big ↦
      let e : min n (length s) ≡ length s = ground arith in
      rw (e, drop_all n s (ground arith), drop_all (length s) s (omega arith)) refl
]
  where
    drop_all : (n : ℕ) (s : Bytes) → length s ≤ n → drop n s ≡ []
    drop_all zero [] h = refl
    drop_all zero (c ∷ s) h = absurd (omega arith)
    drop_all (suc n) [] h = refl
    drop_all (suc n) (c ∷ s) h = drop_all n s (omega arith)

-- Unless the sum of the two numbers, each at least 0, reaches 2 ^ 63, `o9_string_slice` makes the
-- text of at most `count` bytes behind the first `start`, and never reads out of the old text.
pub slice_lem :
    (s : Bytes) (start count : ℤ)
    → at_least_zero start + at_least_zero count < 2 ^ 63
    → slice s start count ≡ some (take (at_least_zero count) (drop (at_least_zero start) s))
unfolding slice sum_exceeds
slice_lem s start count h =
    let a = at_least_zero start in
    let c = at_least_zero count in
    let m = min a (length s) in
    let no_wrap : ltb (m + c) (2 ^ 63) ≡ true = ground arith in
    elim (Bool-cases (ltb (length s) (m + c))) [
      | inl over ↦
          let fits : leb (m + (length s - m)) (length s) ≡ true = ground arith in
          let size = length-drop m s in
          let all = take_all (length s - m) (drop m s) (omega (arith, size)) in
          let all' = take_all c (drop m s) (omega (tests, size, over)) in
          rw (no_wrap, over, fits) (ap some (all ∙ sym all' ∙ ap (take c) (drop-min a s)))
      | inr under ↦
          let fits : leb (m + c) (length s) ≡ true = ground arith in
          rw (no_wrap, under, fits) (ap some (ap (take c) (drop-min a s)))
    ]

-- With a start inside the text and a count that makes the sum of the two reach 2 ^ 63,
-- `o9_string_slice` asks for more bytes than the text has.
pub slice-wraps :
    (s : Bytes) (start count : ℕ)
    → start ≤ length s
    → length s < 2 ^ 63
    → 2 ^ 63 ≤ start + count
    → slice s (pos start) (pos count) ≡ none
unfolding slice sum_exceeds at_least_zero
slice-wraps s start count h k o =
    let m : min start (length s) ≡ start = omega arith in
    let wrap : ltb (start + count) (2 ^ 63) ≡ false = ground arith in
    let out : leb (start + count) (length s) ≡ false = ground arith in rw (m, wrap, out) refl

-- the place of the trimmed text: white space before `a` and from `b` on, and none at its two ends
abbrev pub Trimmed : Bytes → ℕ → ℕ → Type 0
Trimmed s a b =
    (a ≤ b)
    × (b ≤ length s)
    × ((j : ℕ) → j < a → is_space (get_or s j 0) ≡ true)
    × ((j : ℕ) → b ≤ j → j < length s → is_space (get_or s j 0) ≡ true)
    × (a < b → (is_space (get_or s a 0) ≡ false) × (is_space (get_or s (b - 1) 0) ≡ false))

shift_spaces :
    (c : ℕ) (s : Bytes)
    → is_space c ≡ true
    → ((j : ℕ) → j < lead s → is_space (get_or s j 0) ≡ true)
    → (j : ℕ) → j < suc (lead s)
    → is_space (get_or (c ∷ s) j 0) ≡ true
shift_spaces c s space before zero h = space
shift_spaces c s space before (suc j) h = before j (omega arith)

lead_lem :
    (s : Bytes)
    → (lead s ≤ length s)
      × ((j : ℕ) → j < lead s → is_space (get_or s j 0) ≡ true)
      × (lead s < length s → is_space (get_or s (lead s) 0) ≡ false)
unfolding lead
lead_lem [] = (omega arith, λ j h. elim h [ ], λ h. elim h [ ])
lead_lem (c ∷ s) =
    let (bound, before, stop) = lead_lem s in
    elim (Bool-cases (is_space c)) [
      | inl space ↦ rw space (omega arith, shift_spaces c s space before, λ h. stop (omega arith))
      | inr other ↦ rw other (omega arith, (λ j h. elim h [ ]), λ h. other)
    ]

extend :
    (s : Bytes) (low b : ℕ)
    → ((j : ℕ) → low ≤ j → j < b → is_space (get_or s j 0) ≡ true)
    → is_space (get_or s b 0) ≡ true
    → (j : ℕ) → low ≤ j
    → j < suc b
    → is_space (get_or s j 0) ≡ true
extend s low b behind last j k l = elim (ℕ_discrete j b) [
  | yes e ↦ rw e last
  | no ne ↦ behind j k (omega arith)
]

trail_lem :
    (s : Bytes) (a b : ℕ)
    → a ≤ b
    → (a ≤ trail s a b)
      × (trail s a b ≤ b)
      × ((j : ℕ) → trail s a b ≤ j → j < b → is_space (get_or s j 0) ≡ true)
      × (a < trail s a b → is_space (get_or s (trail s a b - 1) 0) ≡ false)
unfolding trail
trail_lem s a zero h = (h, omega arith, (λ j k l. elim l [ ]), λ k. absurd (omega arith))
trail_lem s a (suc b) h = elim (Bool-cases (ltb a (suc b) && is_space (get_or s b 0))) [
  | inl more ↦
      let (low, high, behind, stop) = trail_lem s a b (ground arith) in
      rw more
        (low, omega arith, (λ j k l. extend s (trail s a b) b behind (ground arith) j k l), stop)
  | inr done ↦ rw done (h, omega arith, (λ j k l. absurd (omega arith)), λ k. ground arith)
]

-- `o9_string_trim` cuts the white space at both ends and nothing else.
pub trim_lem : (s : Bytes) → (a : ℕ) × (b : ℕ) × Trimmed s a b × (trim s ≡ block s a (b - a))
unfolding trim
trim_lem s =
    let (bound, before, stop) = lead_lem s in
    let (low, high, behind, end) = trail_lem s (lead s) (length s) bound in
    (
      lead s,
      trail s (lead s) (length s),
      (low, high, before, behind, λ h. (stop (omega arith), end h)),
      refl,
    )

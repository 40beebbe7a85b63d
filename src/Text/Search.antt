-- ===== src/Text/Search.antt =====
-- o9_string_indexof, o9_string_startswith and o9_string_endswith.
use objective_9c.Prelude.{
  ℕ, zero, suc, ◌+◌, ◌-◌, ◌≤◌, ◌<◌, ◌≡◌, refl, sym, ap, ◌∙◌, ◌↔◌, ◌⊎◌, inl, inr, [], ◌∷◌, ◌++◌,
  Bool, true, false, ◌&&◌, ltb, leb, ◌==◌, arith, Bytes, bytes_eq, bytes_eq_sound, bytes_eq_self,
  bytes_eq_iff, length, length-take, length-drop, length-append, take, drop, take-append-drop,
  Bool-cases, ℕ_discrete, tests, take_all,
}
use objective_9c.Prelude.Int.{ℤ, pos, negsuc}
use objective_9c.Text.{block, index_from, index_of, starts_with, ends_with}

-- `needle` stands in `s` at index `i`
abbrev pub Occurs : Bytes → Bytes → ℕ → Type 0
Occurs s needle i = block s i (length needle) ≡ needle

-- `r` is the first place from which `needle` is found below `limit`, or -1
abbrev FirstBelow : Bytes → Bytes → ℕ → ℤ → Type 0
FirstBelow s needle limit r =
    ((r ≡ negsuc 0) × ((j : ℕ) → j < limit → ¬ Occurs s needle j))
    ⊎ ((i : ℕ) × (r ≡ pos i) × Occurs s needle i × ((j : ℕ) → j < i → ¬ Occurs s needle j))

abbrev pub First : Bytes → Bytes → ℤ → Type 0
First s needle r =
    ((r ≡ negsuc 0) × ((j : ℕ) → ¬ Occurs s needle j))
    ⊎ ((i : ℕ) × (r ≡ pos i) × Occurs s needle i × ((j : ℕ) → j < i → ¬ Occurs s needle j))

below_suc : (P : ℕ → Type 0) (i : ℕ) → ((j : ℕ) → j < i → P j) → P i → (j : ℕ) → j < i + 1 → P j
below_suc P i f p j h = elim (ℕ_discrete j i) [ yes e ↦ rw e p | no ne ↦ f j (omega arith) ]

absent_of :
    (s needle : Bytes) (i : ℕ)
    → bytes_eq (block s i (length needle)) needle ≡ false
    → ¬ Occurs s needle i
absent_of s needle i h e =
    let (f, g) = bytes_eq_iff (block s i (length needle)) needle in let same = g e in cc

index_from_lem :
    (rounds : ℕ) (s needle : Bytes) (i : ℕ)
    → ((j : ℕ) → j < i → ¬ Occurs s needle j)
    → FirstBelow s needle (i + rounds) (index_from rounds s needle i)
unfolding index_from
index_from_lem zero s needle i before = inl (refl, λ j h. before j (omega arith))
index_from_lem (suc rounds) s needle i before =
    elim (Bool-cases (bytes_eq (block s i (length needle)) needle)) [
      | inl here ↦
          rw here (inr (i, refl, bytes_eq_sound (block s i (length needle)) needle here, before))
      | inr other ↦
          let absent : ¬ Occurs s needle i = absent_of s needle i other in
          let later : FirstBelow s needle (i + 1 + rounds) (index_from rounds s needle (i + 1)) =
            index_from_lem rounds s needle (i + 1)
              (below_suc (λ j. ¬ Occurs s needle j) i before absent) in
          let e : i + suc rounds ≡ i + 1 + rounds = omega arith in rw (other, e) later
    ]

-- behind the last place that has room
no_room :
    (s needle : Bytes) (j : ℕ)
    → length s < j + length needle
    → 1 ≤ length needle
    → ¬ Occurs s needle j
no_room s needle j h ne e =
    let l = ap length e in
    let n = length-take (length needle) (drop j s) in
    let d = length-drop j s in omega (arith, l, n, d)

-- `o9_string_indexof` gives the first index at which the needle stands, or -1 if there is none.
pub index_of_lem : (s needle : Bytes) → First s needle (index_of s needle)
unfolding index_of
index_of_lem s [] = inr (0, refl, refl, λ j h. elim h [ ])
index_of_lem s (c ∷ needle) =
    let nz : (suc (length needle) == 0) ≡ false = ground arith in
    elim (Bool-cases (ltb (length s) (suc (length needle)))) [
      | inl short ↦
          rw (nz, short) (inl (refl, λ j. no_room s (c ∷ needle) j (omega tests) (omega arith)))
      | inr long ↦
          let rounds = length s - suc (length needle) + 1 in
          rw (nz, long)
            (elim (index_from_lem rounds s (c ∷ needle) 0 (λ j h. elim h [ ])) [
              | inl (e, absent) ↦ inl (
                e,
                λ j. elim (Bool-cases (ltb j rounds)) [
                  | inl below ↦ absent j (omega tests)
                  | inr above ↦ no_room s (c ∷ needle) j (ground arith) (omega arith)
                ],
              )
              | inr found ↦ inr found
            ])
    ]

take-append : (xs ys : Bytes) → take (length xs) (xs ++ ys) ≡ xs
take-append [] ys = refl
take-append (x ∷ xs) ys = ap (λ r. x ∷ r) (take-append xs ys)

drop-append : (xs ys : Bytes) (n : ℕ) → n ≡ length xs → drop n (xs ++ ys) ≡ ys
drop-append xs ys n e = rw e (go xs)
  where
    go : (zs : Bytes) → drop (length zs) (zs ++ ys) ≡ ys
    go [] = refl
    go (z ∷ zs) = go zs

both : (a b : Bool) → (a && b) ≡ true → (a ≡ true) × (b ≡ true)
both true b h = (refl, h)
both false b h = cc

starts_with-append : (s prefix rest : Bytes) → s ≡ prefix ++ rest → starts_with s prefix ≡ true
unfolding starts_with
starts_with-append s prefix rest e =
    let fits : leb (length prefix) (length (prefix ++ rest)) ≡ true =
      ground (arith, length-append prefix rest) in
    rw (e, take-append prefix rest, bytes_eq_self prefix, fits) refl

-- `o9_string_startswith` says whether the text is the prefix followed by something.
pub starts_with_lem :
    (s prefix : Bytes) → (starts_with s prefix ≡ true) ↔ ((rest : Bytes) × (s ≡ prefix ++ rest))
unfolding starts_with
starts_with_lem s prefix = (
  (λ h.
      let (_, same) =
        both (leb (length prefix) (length s)) (bytes_eq (take (length prefix) s) prefix) h in
      let e = bytes_eq_sound (take (length prefix) s) prefix same in
      (
        drop (length prefix) s,
        sym (take-append-drop (length prefix) s) ∙ ap (λ z. z ++ drop (length prefix) s) e,
      )),
  (λ x. starts_with-append s prefix x.0 x.1),
)

ends_with-append : (s suffix front : Bytes) → s ≡ front ++ suffix → ends_with s suffix ≡ true
unfolding ends_with
ends_with-append s suffix front e =
    let l = length-append front suffix in
    let fits : leb (length suffix) (length (front ++ suffix)) ≡ true = ground (arith, l) in
    let rest =
      drop-append front suffix (length (front ++ suffix) - length suffix) (omega (arith, l)) in
    rw (e, rest, take_all (length suffix) suffix (omega arith), bytes_eq_self suffix, fits) refl

-- `o9_string_endswith` says whether the text is something followed by the suffix.
pub ends_with_lem :
    (s suffix : Bytes) → (ends_with s suffix ≡ true) ↔ ((front : Bytes) × (s ≡ front ++ suffix))
unfolding ends_with
ends_with_lem s suffix = (
  (λ h.
      let (fits, same) =
        both (leb (length suffix) (length s))
          (bytes_eq (take (length suffix) (drop (length s - length suffix) s)) suffix) h in
      let e =
        bytes_eq_sound (take (length suffix) (drop (length s - length suffix) s)) suffix same in
      let all =
        take_all (length suffix) (drop (length s - length suffix) s)
          (let d = length-drop (length s - length suffix) s in ground (arith, d, fits)) in
      (
        take (length s - length suffix) s,
        sym (take-append-drop (length s - length suffix) s)
            ∙ ap (λ z. take (length s - length suffix) s ++ z) (sym all ∙ e),
      )),
  (λ x. ends_with-append s suffix x.0 x.1),
)

-- ===== src/Text/Compare.antt =====
-- o9_str_cmp is the lexicographic order of the bytes.
use objective_9c.Prelude.{
  ℕ, zero, suc, ◌≡◌, refl, sym, ap, ◌∙◌, ◌↔◌, [], ◌∷◌, false, ltb, if◌then◌else◌, arith, Bytes,
  length, take, Bool-cases, inl, inr, subst,
}
use objective_9c.Prelude.Int.{ℤ, pos, negsuc}
use objective_9c.Text.{memcmp, cmp_rest, str_cmp}

-- the order of the dictionary: the first byte that differs decides, and a prefix comes first
abbrev pub lex : Bytes → Bytes → ℤ
lex [] [] = pos 0
lex [] (b ∷ t) = negsuc 0
lex (a ∷ s) [] = pos 1
lex (a ∷ s) (b ∷ t) =
    let rest = lex s t in if ltb a b then negsuc 0 else if ltb b a then pos 1 else rest

abbrev shorter : Bytes → Bytes → ℕ
shorter a b = if ltb (length a) (length b) then length a else length b

shorter-suc : (a b : ℕ) (s t : Bytes) → shorter (a ∷ s) (b ∷ t) ≡ suc (shorter s t)
shorter-suc a b s t = ground arith

cmp_both : Bytes → Bytes → ℤ
cmp_both a b = cmp_rest (memcmp (take (shorter a b) a) (take (shorter a b) b)) (length a) (length b)

cmp_rest-suc : (r : ℤ) (a b : ℕ) → cmp_rest r (suc a) (suc b) ≡ cmp_rest r a b
unfolding cmp_rest
cmp_rest-suc (negsuc c) a b = refl
cmp_rest-suc (pos zero) a b = ground arith
cmp_rest-suc (pos (suc c)) a b = refl

cmp_both_lem : (a b : Bytes) → cmp_both a b ≡ lex a b
unfolding cmp_both memcmp cmp_rest
cmp_both_lem [] [] = refl
cmp_both_lem [] (b ∷ t) = ground arith
cmp_both_lem (a ∷ s) [] = ground arith
cmp_both_lem (a ∷ s) (b ∷ t) =
    let ih = cmp_both_lem s t in
    let r = memcmp (take (shorter s t) s) (take (shorter s t) t) in
    let e = cmp_rest-suc r (length s) (length t) in rw (shorter-suc a b s t) (ground arith)

empty_shorter :
    (a b : Bytes)
    → ltb 0 (shorter a b) ≡ false
    → memcmp (take (shorter a b) a) (take (shorter a b) b) ≡ pos 0
unfolding memcmp
empty_shorter a b h = let z : shorter a b ≡ 0 = ground arith in rw z refl

-- `o9_str_cmp` is the order of the dictionary.
pub str_cmp_lem : (a b : Bytes) → str_cmp a b ≡ lex a b
unfolding str_cmp cmp_both
str_cmp_lem a b = elim (Bool-cases (ltb 0 (shorter a b))) [
  | inl some_bytes ↦ rw some_bytes (cmp_both_lem a b)
  | inr no_bytes ↦ rw no_bytes (
      sym (ap (λ r. cmp_rest r (length a) (length b)) (empty_shorter a b no_bytes))
      ∙ cmp_both_lem a b)
]

-- swapping the two texts of a comparison
abbrev pub opposite : ℤ → ℤ
opposite (negsuc n) = pos (suc n)
opposite (pos zero) = pos 0
opposite (pos (suc n)) = negsuc n

lex-swap : (a b : Bytes) → lex b a ≡ opposite (lex a b)
lex-swap [] [] = refl
lex-swap [] (b ∷ t) = refl
lex-swap (a ∷ s) [] = refl
lex-swap (a ∷ s) (b ∷ t) = ground (arith, lex-swap s t)

lex-zero : (a b : Bytes) → lex a b ≡ pos 0 → a ≡ b
lex-zero [] [] h = refl
lex-zero [] (b ∷ t) h = cc
lex-zero (a ∷ s) [] h = cc
lex-zero (a ∷ s) (b ∷ t) h = ground (arith, lex-zero s t)

lex_self : (a : Bytes) → lex a a ≡ pos 0
lex_self [] = refl
lex_self (c ∷ s) = ground (arith, lex_self s)

-- `o9_str_cmp` gives 0 for two equal texts and no others, and the opposite answer for swapped texts.
pub str_cmp_laws :
    (a b : Bytes) → ((str_cmp a b ≡ pos 0) ↔ (a ≡ b)) × (str_cmp b a ≡ opposite (str_cmp a b))
str_cmp_laws a b = (
  (
    λ h. lex-zero a b (sym (str_cmp_lem a b) ∙ h),
    λ e. str_cmp_lem a b ∙ subst (λ c. lex a c ≡ pos 0) e (lex_self a),
  ),
  str_cmp_lem b a ∙ lex-swap a b ∙ ap opposite (sym (str_cmp_lem a b)),
)

-- ===== src/Merge/Count.antt =====
-- Sums over the buckets of the table of grid/o9mutmerge.c, and what its operations do to them.
use objective_9c.Prelude.{
  ℕ, zero, suc, ◌+◌, ◌≤◌, ◌<◌, ◌≡◌, refl, ap, [], ◌∷◌, some, true, false, if◌then◌else◌, arith,
  Bytes, bytes_eq, Bool-cases, inl, inr, length, length-append, ◌==◌, ℕ_discrete, if_ind,
}
use objective_9c.Merge.{Entry, Chain, find_entry, put, mark_seen, missing_in, missing_from}

-- the sum of a weight of the `n` buckets from `i` on
pub sum_from : (Chain → ℕ) → ℕ → (ℕ → Chain) → ℕ → ℕ
sum_from w zero tab i = 0
sum_from w (suc n) tab i = w (tab i) + sum_from w n tab (i + 1)

abbrev pub entries : Chain → ℕ
entries c = length c

abbrev pub seen_in : Chain → ℕ
seen_in [] = 0
seen_in (e ∷ es) = (if e.seen then 1 else 0) + seen_in es

pub sum_from_empty : (w : Chain → ℕ) (n i : ℕ) → w [] ≡ 0 → sum_from w n (λ j. []) i ≡ 0
unfolding sum_from
sum_from_empty w zero i z = refl
sum_from_empty w (suc n) i z = omega (arith, z, sum_from_empty w n (i + 1) z)

sum_from-put_before :
    (w : Chain → ℕ) (n : ℕ) (tab : ℕ → Chain) (h : ℕ) (c : Chain) (i : ℕ)
    → h < i
    → sum_from w n (put tab h c) i ≡ sum_from w n tab i
unfolding sum_from
sum_from-put_before w zero tab h c i before = refl
sum_from-put_before w (suc n) tab h c i before =
    let e : (i == h) ≡ false = ground arith in
    rw e (ap (λ z. w (tab i) + z) (sum_from-put_before w n tab h c (i + 1) (omega arith)))

-- A bucket that is replaced changes the sum by its own weight.
pub sum_from-put :
    (w : Chain → ℕ) (n : ℕ) (tab : ℕ → Chain) (h : ℕ) (c : Chain) (i : ℕ)
    → i ≤ h
    → h < i + n
    → sum_from w n (put tab h c) i + w (tab h) ≡ sum_from w n tab i + w c
unfolding sum_from
sum_from-put w zero tab h c i low high = absurd (omega arith)
sum_from-put w (suc n) tab h c i low high = elim (ℕ_discrete i h) [
  | yes here ↦
      let e : (i == h) ≡ true = ground arith in
      let later = sum_from-put_before w n tab h c (i + 1) (omega arith) in
      rw (e, later, here) (omega arith)
  | no elsewhere ↦
      let e : (i == h) ≡ false = ground arith in
      let later = sum_from-put w n tab h c (i + 1) (omega arith) (omega arith) in
      rw e (omega (arith, later))
]

pub length-missing_in : (c : Chain) → length (missing_in c) + seen_in c ≡ entries c
unfolding missing_in
length-missing_in [] = refl
length-missing_in (e ∷ es) = elim (Bool-cases e.seen) [
  | inl seen ↦ simp seen (omega (arith, length-missing_in es))
  | inr missing ↦ simp missing (omega (arith, length-missing_in es))
]

pub length-missing_from :
    (n : ℕ) (tab : ℕ → Chain) (i : ℕ)
    → length (missing_from n tab i) + sum_from seen_in n tab i ≡ sum_from entries n tab i
unfolding missing_from sum_from
length-missing_from zero tab i = refl
length-missing_from (suc n) tab i = omega (
  arith,
  length-append (missing_in (tab i)) (missing_from n tab (i + 1)),
  length-missing_in (tab i),
  length-missing_from n tab (i + 1),
)

pub length-mark_seen :
    (c : Chain) (id row file : Bytes) → entries (mark_seen c id row file) ≡ entries c
unfolding mark_seen
length-mark_seen [] id row file = refl
length-mark_seen (e ∷ es) id row file =
    if_ind (λ z. entries z ≡ suc (length es)) (bytes_eq e.id id) _ _ (λ here. refl)
      (λ elsewhere. ap suc (length-mark_seen es id row file))

pub seen-mark_seen :
    (c : Chain) (id row file : Bytes) (e : Entry)
    → find_entry c id ≡ some e
    → e.seen ≡ false
    → seen_in (mark_seen c id row file) ≡ seen_in c + 1
unfolding mark_seen find_entry
seen-mark_seen [] id row file e found fresh = cc
seen-mark_seen (d ∷ ds) id row file e found fresh = elim (Bool-cases (bytes_eq d.id id)) [
  | inl here ↦
      let same : some d ≡ some e = rw here at found in
      let unseen : d.seen ≡ false = cc in simp (here, unseen) (omega arith)
  | inr elsewhere ↦
      let later : find_entry ds id ≡ some e = rw elsewhere at found in
      simp elsewhere (omega (arith, seen-mark_seen ds id row file e later fresh))
]

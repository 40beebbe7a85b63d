-- ===== src/Dict/Last.antt =====
-- The last of several entries wins: what a fold over all the entries finds is what the buckets find.
use objective_9c.Prelude.{
  ℕ, suc, ◌+◌, ◌-◌, ◌≤◌, ◌<◌, ◌≡◌, refl, sym, ap, ◌∙◌, ◌≢◌, inl, inr, List, [], ◌∷◌, Option, some,
  none, if◌then◌else◌, arith, Bool-cases, subst, get_elem?, ℕ_discrete,
}
use objective_9c.Dict.{Cell, Chain, Dict, hash_cell, keyeq, chain_of, find}
use objective_9c.Dict.Lookup.{Placed, find-keyeq, hash-keyeq}

-- Later entries win over earlier ones and over what was there.
abbrev pub later : Option Cell → Option Cell → Option Cell
later none old = old
later (some v) old = some v

abbrev pub last : Chain → Cell → Option Cell → Option Cell
last [] k old = old
last (e ∷ es) k old = last es k (if keyeq e.key k then some e.val else old)

last_absent : (es : Chain) (k : Cell) (old : Option Cell) → find es k ≡ none → last es k old ≡ old
unfolding find
last_absent [] k old h = refl
last_absent (e ∷ es) k old h = elim (Bool-cases (keyeq e.key k)) [
  | inl hit ↦ absurd (ground arith)
  | inr miss ↦ rw miss (last_absent es k old (ground arith))
]

last-find :
    (h : ℕ) (es : Chain) (k : Cell) (old : Option Cell)
    → Placed h es
    → last es k old ≡ later (find es k) old
unfolding find
last-find h [] k old p = refl
last-find h (e ∷ es) k old (hash, fresh, rest) = elim (Bool-cases (keyeq e.key k)) [
  | inl hit ↦
      let absent : find es k ≡ none = sym (find-keyeq es e.key k hit) ∙ fresh in
      rw hit (last_absent es k (some e.val) absent)
  | inr miss ↦ rw miss (last-find h es k old rest)
]

find_elsewhere : (h : ℕ) (es : Chain) (k : Cell) → Placed h es → hash_cell k ≢ h → find es k ≡ none
unfolding find
find_elsewhere h [] k p ne = refl
find_elsewhere h (e ∷ es) k (hash, fresh, rest) ne = elim (Bool-cases (keyeq e.key k)) [
  | inl hit ↦ absurd (ne (sym (hash-keyeq e.key k hit) ∙ hash))
  | inr miss ↦ rw miss (find_elsewhere h es k rest ne)
]

abbrev pub last_all : List Chain → Cell → Option Cell → Option Cell
last_all [] k old = old
last_all (c ∷ cs) k old = last_all cs k (last c k old)

-- the chains of the buckets from `i` on
abbrev pub PlacedFrom : ℕ → List Chain → Type 0
PlacedFrom i [] = 0 ≤ i
PlacedFrom i (c ∷ cs) = Placed i c × PlacedFrom (i + 1) cs

abbrev pub nth : List Chain → ℕ → Chain
nth cs i = chain_of (get_elem? cs i)

last_all_other :
    (i : ℕ) (cs : List Chain) (k : Cell) (old : Option Cell)
    → PlacedFrom i cs
    → hash_cell k < i
    → last_all cs k old ≡ old
last_all_other i [] k old p h = refl
last_all_other i (c ∷ cs) k old (here, rest) h =
    let miss : last c k old ≡ old =
      last_absent c k old (find_elsewhere i c k here (λ e. absurd (omega arith))) in
    ap (last_all cs k) miss ∙ last_all_other (i + 1) cs k old rest (omega arith)

pub last_all-find :
    (i : ℕ) (cs : List Chain) (k : Cell) (old : Option Cell)
    → PlacedFrom i cs
    → i ≤ hash_cell k
    → last_all cs k old ≡ later (find (nth cs (hash_cell k - i)) k) old
unfolding chain_of find
last_all-find i [] k old p h = refl
last_all-find i (c ∷ cs) k old (here, rest) h = elim (ℕ_discrete (hash_cell k) i) [
  | yes same ↦
      let z : hash_cell k - i ≡ 0 = omega arith in
      rw z
        (last_all_other (i + 1) cs k (last c k old) rest (omega arith) ∙ last-find i c k old here)
  | no differ ↦
      let s : hash_cell k - i ≡ suc (hash_cell k - (i + 1)) = omega arith in
      let miss : last c k old ≡ old = last_absent c k old (find_elsewhere i c k here differ) in
      rw s (ap (last_all cs k) miss ∙ last_all-find (i + 1) cs k old rest (omega arith))
]

pub PlacedFrom-bucket :
    (d : Dict) (cs : List Chain) (i : ℕ) → ((j : ℕ) → Placed (i + j) (nth cs j)) → PlacedFrom i cs
unfolding chain_of
PlacedFrom-bucket d [] i h = omega arith
PlacedFrom-bucket d (c ∷ cs) i h = (
  subst (λ z. Placed z c) (omega arith) (h 0),
  PlacedFrom-bucket d cs (i + 1) (λ j. subst (λ z. Placed z (nth cs j)) (omega arith) (h (suc j))),
)

-- ===== src/Dict/Placed.antt =====
-- Setting keeps every entry in its bucket and every key unique.
use objective_9c.Prelude.{
  ℕ, zero, suc, ◌<◌, ◌≡◌, refl, sym, ◌∙◌, inl, inr, [], ◌∷◌, Option, some, none, true, false, arith,
  get_elem?, replicate, Bool-cases, length-set, subst, ℕ_discrete,
}
use objective_9c.Dict.{
  Cell, Entry, Chain, Dict, Kind, init_typed, cell_size, cell_copy, hash_cell, keyeq, bucket,
  chain_of, find, assign, set_chain, setv,
}
use objective_9c.Dict.Lookup.{
  IsValid, Placed, setv-updated, updated, bucket-set_self, bucket-set_ne, hash_small,
}

-- an assignment finds the key and brings in no other, or the chain has no such key
abbrev Keeps : ℕ → Chain → Cell → Option Chain → Type 0
Keeps h c k none = find c k ≡ none
Keeps h c k (some c') = Placed h c' × ((a : Cell) → find c a ≡ none → find c' a ≡ none)

find-cons_none :
    (e : Entry) (es : Chain) (a : Cell)
    → find (e ∷ es) a ≡ none
    → (keyeq e.key a ≡ false) × (find es a ≡ none)
unfolding find
find-cons_none e es a h = elim (Bool-cases (keyeq e.key a)) [
  | inl hit ↦ absurd (ground arith)
  | inr miss ↦ (miss, ground arith)
]

Keeps-cons :
    (h : ℕ) (e : Entry) (es : Chain) (k : Cell) (o : Option Chain)
    → keyeq e.key k ≡ false
    → Placed h (e ∷ es)
    → Keeps h es k o
    → Keeps h (e ∷ es) k (elim o [ none ↦ none | some es' ↦ some (e ∷ es') ])
unfolding find
Keeps-cons h e es k none other p q = rw other q
Keeps-cons h e es k (some es') other (hash, fresh, rest) (placed, same) = (
  (hash, same e.key fresh, placed),
  λ a q. let (miss, absent) = find-cons_none e es a q in rw miss (same a absent),
)

assign-Keeps : (h : ℕ) (c : Chain) (k v : Cell) → Placed h c → Keeps h c k (assign c k v)
unfolding assign find
assign-Keeps h [] k v p = refl
assign-Keeps h (e ∷ es) k v (hash, fresh, rest) = elim (Bool-cases (keyeq e.key k)) [
  | inl here ↦
      rw here
        ((hash, fresh, rest), λ a q. let (miss, absent) = find-cons_none e es a q in rw miss absent)
  | inr other ↦
      rw other
        (Keeps-cons h e es k (assign es k v) other (hash, fresh, rest) (assign-Keeps h es k v rest))
]

set_chain-Placed :
    (h : ℕ) (c : Chain) (k v : Cell)
    → hash_cell k ≡ h
    → Placed h c
    → Placed h (set_chain true c k v)
unfolding set_chain
set_chain-Placed h c k v e p = go (assign c k v) (assign-Keeps h c k v p)
  where
    go :
        (o : Option Chain)
        → Keeps h c k o
        → Placed h (elim o [ some c' ↦ c' | none ↦ record { key = k; val = v } ∷ c ])
    go none absent = (e, absent, p)
    go (some c') (q, same) = q

-- A valid dictionary has 64 buckets, every entry stands in the bucket of its hash, and no key stands
-- twice. `o9_dict_setv` with memory keeps a dictionary valid.
pub setv-IsValid :
    (d : Dict) (k : Cell) (val : Option Cell) → IsValid d → IsValid (setv true d k val)
setv-IsValid d k val v =
    let h = hash_cell k in
    let c = set_chain true (bucket d h) k (cell_copy d.valkind d.valsz val) in
    subst IsValid (sym (setv-updated d k val v.used)) (record {
      size = length-set d.buckets h c ∙ v.size;
      used = v.used;
      placed = λ i. elim (ℕ_discrete h i) [
        | yes same ↦
            let e : bucket (updated d k val) h ≡ c =
              bucket-set_self d h c (let s = v.size in omega (arith, s, hash_small k)) in
            subst (λ j. Placed j (bucket (updated d k val) j)) same
              (subst (Placed h) (sym e) (
                set_chain-Placed h (bucket d h) k (cell_copy d.valkind d.valsz val) refl
                  (v.placed h)))
        | no differ ↦ subst (Placed i) (sym (bucket-set_ne d h i c differ)) (v.placed i)
      ];
    })

nth-replicate : (n i : ℕ) → chain_of (get_elem? (replicate n []) i) ≡ []
unfolding chain_of
nth-replicate zero i = refl
nth-replicate (suc n) zero = refl
nth-replicate (suc n) (suc i) = nth-replicate n i

cell_size_pos : (n : Option ℕ) → 0 < cell_size n
unfolding cell_size
cell_size_pos none = omega arith
cell_size_pos (some zero) = omega arith
cell_size_pos (some (suc n)) = omega arith

pub init_typed-IsValid :
    (keysz valsz : Option ℕ) (keykind valkind : Kind)
    → IsValid (init_typed keysz valsz keykind valkind)
unfolding init_typed bucket
init_typed-IsValid keysz valsz keykind valkind = record {
  size = refl;
  used = cell_size_pos keysz;
  placed = λ h. subst (Placed h) (sym (nth-replicate 64 h)) (omega arith);
}

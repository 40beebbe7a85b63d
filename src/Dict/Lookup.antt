-- ===== src/Dict/Lookup.antt =====
-- What a dictionary gives after it was set, and the invariant of its buckets.
use objective_9c.Prelude.{
  ℕ, ◌≤◌, ◌<◌, ◌≡◌, refl, sym, ap, ◌∙◌, ◌≢◌, inl, inr, [], ◌∷◌, Option, some, none, true, false,
  ◌==◌, if◌then◌else◌, arith, Bytes, bytes_eq_sound, bytes_eq_self, length, set, Bool-cases,
  get_elem?-set_self, get_elem?-set_ne, subst, ℕ_discrete,
}
use objective_9c.Dict.{
  Cell, string_cell, cstr_cell, raw_cell, Entry, Chain, Dict, defaults, cell_copy, hash_cell,
  hash_bytes, string_bytes, keyeq, cstr_eq, bucket, find, getp, assign, set_chain, setv, chain_of,
}

-- a key with nil read as the empty string
abbrev pub norm : Cell → Cell
norm (string_cell s) = string_cell (some (string_bytes s))
norm (cstr_cell s) = cstr_cell s
norm (raw_cell b) = raw_cell b

abbrev bytes_of : Cell → Bytes
bytes_of (string_cell s) = string_bytes s
bytes_of (cstr_cell s) = string_bytes s
bytes_of (raw_cell b) = b

pub keyeq_sound : (a b : Cell) → keyeq a b ≡ true → norm a ≡ norm b
unfolding keyeq cstr_eq string_bytes
keyeq_sound (string_cell a) (string_cell b) h =
    ap (λ s. string_cell (some s)) (bytes_eq_sound (string_bytes a) (string_bytes b) h)
keyeq_sound (string_cell a) (cstr_cell b) h = cc
keyeq_sound (string_cell a) (raw_cell b) h = cc
keyeq_sound (cstr_cell a) (string_cell b) h = cc
keyeq_sound (cstr_cell none) (cstr_cell none) h = refl
keyeq_sound (cstr_cell none) (cstr_cell (some b)) h = cc
keyeq_sound (cstr_cell (some a)) (cstr_cell none) h = cc
keyeq_sound (cstr_cell (some a)) (cstr_cell (some b)) h =
    ap (λ s. cstr_cell (some s)) (bytes_eq_sound a b h)
keyeq_sound (cstr_cell a) (raw_cell b) h = cc
keyeq_sound (raw_cell a) (string_cell b) h = cc
keyeq_sound (raw_cell a) (cstr_cell b) h = cc
keyeq_sound (raw_cell a) (raw_cell b) h = ap raw_cell (bytes_eq_sound a b h)

keyeq-norm : (a b : Cell) → keyeq a b ≡ keyeq (norm a) (norm b)
unfolding keyeq cstr_eq string_bytes
keyeq-norm (string_cell a) (string_cell b) = refl
keyeq-norm (string_cell a) (cstr_cell b) = refl
keyeq-norm (string_cell a) (raw_cell b) = refl
keyeq-norm (cstr_cell a) (string_cell b) = refl
keyeq-norm (cstr_cell a) (cstr_cell b) = refl
keyeq-norm (cstr_cell a) (raw_cell b) = refl
keyeq-norm (raw_cell a) (string_cell b) = refl
keyeq-norm (raw_cell a) (cstr_cell b) = refl
keyeq-norm (raw_cell a) (raw_cell b) = refl

pub keyeq_self : (a : Cell) → keyeq a a ≡ true
unfolding keyeq cstr_eq
keyeq_self (string_cell s) = bytes_eq_self (string_bytes s)
keyeq_self (cstr_cell none) = refl
keyeq_self (cstr_cell (some s)) = bytes_eq_self s
keyeq_self (raw_cell b) = bytes_eq_self b

keyeq_complete : (a b : Cell) → norm a ≡ norm b → keyeq a b ≡ true
keyeq_complete a b h = keyeq-norm a b ∙ subst (λ z. keyeq (norm a) z ≡ true) h (keyeq_self (norm a))

hash-norm : (a : Cell) → hash_cell (norm a) ≡ hash_cell a
unfolding hash_cell string_bytes
hash-norm (string_cell s) = refl
hash-norm (cstr_cell s) = refl
hash-norm (raw_cell b) = refl

pub hash-keyeq : (a b : Cell) → keyeq a b ≡ true → hash_cell a ≡ hash_cell b
hash-keyeq a b h = sym (hash-norm a) ∙ ap hash_cell (keyeq_sound a b h) ∙ hash-norm b

-- equal keys are equal to the same keys
pub keyeq-left : (a b k : Cell) → keyeq a b ≡ true → keyeq a k ≡ keyeq b k
keyeq-left a b k h =
    keyeq-norm a k ∙ ap (λ z. keyeq z (norm k)) (keyeq_sound a b h) ∙ sym (keyeq-norm b k)

pub keyeq-right : (a b k : Cell) → keyeq a b ≡ true → keyeq k a ≡ keyeq k b
keyeq-right a b k h =
    keyeq-norm k a ∙ ap (λ z. keyeq (norm k) z) (keyeq_sound a b h) ∙ sym (keyeq-norm k b)

pub keyeq_comm : (a b : Cell) → keyeq a b ≡ true → keyeq b a ≡ true
keyeq_comm a b h = keyeq_complete b a (sym (keyeq_sound a b h))

pub find-keyeq : (c : Chain) (a b : Cell) → keyeq a b ≡ true → find c a ≡ find c b
unfolding find
find-keyeq [] a b h = refl
find-keyeq (e ∷ es) a b h = rw (keyeq-right a b e.key h, find-keyeq es a b h) refl

-- what `find` gives once `v` is set for `k`
abbrev pub after : Cell → Cell → Cell → Option Cell → Option Cell
after k v k' old = if keyeq k k' then some v else old

-- `assign` finds the key and sets its value, or the chain has no such key
abbrev Assigned : Chain → Cell → Cell → Cell → Option Chain → Type 0
Assigned c k v k' none = find c k ≡ none
Assigned c k v k' (some c') = find c' k' ≡ after k v k' (find c k')

apart : (a k k' : Cell) → keyeq a k ≡ false → keyeq a k' ≡ true → keyeq k k' ≡ false
apart a k k' other here = elim (Bool-cases (keyeq k k')) [
  | inr no_match ↦ no_match
  | inl same ↦
      let e : keyeq a k ≡ keyeq a k' = keyeq-right k k' a same in
      let clash : false ≡ true = sym other ∙ e ∙ here in cc
]

Assigned-cons :
    (e : Entry) (es : Chain) (k v k' : Cell) (o : Option Chain)
    → keyeq e.key k ≡ false
    → Assigned es k v k' o
    → Assigned (e ∷ es) k v k' (elim o [ none ↦ none | some es' ↦ some (e ∷ es') ])
unfolding find
Assigned-cons e es k v k' none other h = rw other h
Assigned-cons e es k v k' (some es') other h = elim (Bool-cases (keyeq e.key k')) [
  | inl here ↦ let no_match = apart e.key k k' other here in rw (here, no_match) refl
  | inr elsewhere ↦ rw elsewhere h
]

assign-Assigned : (c : Chain) (k v k' : Cell) → Assigned c k v k' (assign c k v)
unfolding assign find
assign-Assigned [] k v k' = refl
assign-Assigned (e ∷ es) k v k' = elim (Bool-cases (keyeq e.key k)) [
  | inl here ↦
      let same : keyeq e.key k' ≡ keyeq k k' = keyeq-left e.key k k' here in
      rw (here, same) (ground arith)
  | inr other ↦
      rw other (Assigned-cons e es k v k' (assign es k v) other (assign-Assigned es k v k'))
]

pub find-set_chain :
    (c : Chain) (k v k' : Cell) → find (set_chain true c k v) k' ≡ after k v k' (find c k')
unfolding set_chain find
find-set_chain c k v k' = go (assign c k v) (assign-Assigned c k v k')
  where
    go :
        (o : Option Chain)
        → Assigned c k v k' o
        → find (elim o [ some c' ↦ c' | none ↦ record { key = k; val = v } ∷ c ]) k'
          ≡ after k v k' (find c k')
    go none h = refl
    go (some c') h = h

pub hash_small : (k : Cell) → hash_cell k < 64
unfolding hash_cell hash_bytes
hash_small (string_cell s) = omega arith
hash_small (cstr_cell none) = omega arith
hash_small (cstr_cell (some s)) = omega arith
hash_small (raw_cell b) = omega arith

-- Each entry stands in the bucket of its hash, and no key stands twice.
abbrev pub Placed : ℕ → Chain → Type 0
Placed h [] = 0 ≤ h
Placed h (e ∷ es) = (hash_cell e.key ≡ h) × (find es e.key ≡ none) × Placed h es

pub record IsValid (d : Dict) : Type 0 where
  pub size : length d.buckets ≡ 64
  pub used : 0 < d.keysz
  pub placed : (h : ℕ) → Placed h (bucket d h)

pub used-defaults : (d : Dict) → 0 < d.keysz → defaults d ≡ d
unfolding defaults
used-defaults d h = let e : (d.keysz == 0) ≡ false = ground arith in rw e refl

pub bucket-set_self :
    (d : Dict) (h : ℕ) (c : Chain)
    → h < length d.buckets
    → bucket (record d { buckets = set d.buckets h c }) h ≡ c
unfolding bucket chain_of
bucket-set_self d h c k = ap chain_of (get_elem?-set_self d.buckets h c k)

pub bucket-set_ne :
    (d : Dict) (h i : ℕ) (c : Chain)
    → h ≢ i
    → bucket (record d { buckets = set d.buckets h c }) i ≡ bucket d i
unfolding bucket chain_of
bucket-set_ne d h i c ne = ap chain_of (get_elem?-set_ne d.buckets c ne)

-- the dictionary that o9_dict_setv leaves, when it is in use
abbrev pub updated : Dict → Cell → Option Cell → Dict
updated d k val = record d {
  buckets =
      set d.buckets (hash_cell k)
        (set_chain true (bucket d (hash_cell k)) k (cell_copy d.valkind d.valsz val));
}

pub setv-updated :
    (d : Dict) (k : Cell) (val : Option Cell) → 0 < d.keysz → setv true d k val ≡ updated d k val
unfolding setv
setv-updated d k val h = ap (λ z. updated z k val) (used-defaults d h)

pub getp_used : (d : Dict) (k : Cell) → 0 < d.keysz → getp d k ≡ find (bucket d (hash_cell k)) k
unfolding getp
getp_used d k h = ap (λ z. find (bucket z (hash_cell k)) k) (used-defaults d h)

-- the chain that a key is looked up in, after another key was set
find-updated :
    (d : Dict) (k : Cell) (val : Option Cell) (k' : Cell)
    → IsValid d
    → find (bucket (updated d k val) (hash_cell k')) k'
      ≡ after k (cell_copy d.valkind d.valsz val) k' (find (bucket d (hash_cell k')) k')
find-updated d k val k' v =
    let h = hash_cell k in
    let c = set_chain true (bucket d h) k (cell_copy d.valkind d.valsz val) in
    elim (ℕ_discrete h (hash_cell k')) [
      | yes same ↦
          let e : bucket (updated d k val) h ≡ c =
            bucket-set_self d h c (omega (arith, hash_small k)) in
          subst
            (λ i.
              find (bucket (updated d k val) i) k'
              ≡ after k (cell_copy d.valkind d.valsz val) k' (find (bucket d i) k'))
            same
            (ap (λ z. find z k') e
              ∙ find-set_chain (bucket d h) k (cell_copy d.valkind d.valsz val) k')
      | no differ ↦
          let miss : keyeq k k' ≡ false = elim (Bool-cases (keyeq k k')) [
            | inl hit ↦ absurd (differ (hash-keyeq k k' hit))
            | inr miss ↦ miss
          ] in
          rw miss (ap (λ z. find z k') (bucket-set_ne d h (hash_cell k') c differ))
    ]

-- After `o9_dict_setv` with memory, `o9_dict_getp` finds the new value under the keys equal to the
-- one that was set, and under every other key what it found before, in a valid dictionary.
pub getp-setv :
    (d : Dict) (k : Cell) (val : Option Cell) (k' : Cell)
    → IsValid d
    → getp (setv true d k val) k'
      ≡ (if keyeq k k' then some (cell_copy d.valkind d.valsz val) else getp d k')
getp-setv d k val k' v =
    ap (λ z. getp z k') (setv-updated d k val v.used)
    ∙ getp_used (updated d k val) k' v.used
    ∙ find-updated d k val k' v
    ∙ ap (after k (cell_copy d.valkind d.valsz val) k') (sym (getp_used d k' v.used))

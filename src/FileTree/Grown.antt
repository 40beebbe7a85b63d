-- ===== src/FileTree/Grown.antt =====
-- What ft_list_add and the chains of a directory add to a list of entries of o9_filetree.c.
use objective_9c.Prelude.{
  ℕ, zero, suc, ◌+◌, ◌≤◌, ◌<◌, ◌≡◌, refl, sym, ◌∙◌, List, [], ◌∷◌, ◌++◌, Option, some, none, true,
  false, ◌&&◌, ◌||◌, not, if◌then◌else◌, arith, Bytes, bytes_eq, bytes_eq_sound, bytes_eq_self,
  Bool-cases, inl, inr, if_ind, subst, ℕ_discrete,
}
use objective_9c.FileTree.{Entry, FileTree, entry_in, find_chain}
use objective_9c.FileTree.Mounts.{replaces}
use objective_9c.FileTree.Reaches.{or_false}
use objective_9c.FileTree.Listing.{Listed, has_name, list_add, add_chain, add_buckets, own_entries}

-- No name stands twice in a list.
abbrev pub Distinct : Listed → Type 0
Distinct [] = 0 ≤ 0
Distinct ((a, e) ∷ es) = (has_name e.name es ≡ false) × Distinct es

-- What an operation on a list keeps: the names in it, and that none stands twice
abbrev pub Grows : Listed → Listed → Type 0
Grows es fs =
    ((n : Bytes) → has_name n es ≡ true → has_name n fs ≡ true) × (Distinct es → Distinct fs)

pub Grows-self : (es : Listed) → Grows es es
Grows-self es = (λ n h. h, λ h. h)

pub Grows-both : (es fs gs : Listed) → Grows es fs → Grows fs gs → Grows es gs
Grows-both es fs gs (p, q) (u, v) = (λ n h. u n (p n h), λ h. v (q h))

pub has_name-append :
    (n : Bytes) (es : Listed) (r : ℕ × Entry)
    → has_name n (es ++ r ∷ []) ≡ (has_name n es || bytes_eq r.1.name n)
has_name-append n [] r = elim (Bool-cases (bytes_eq r.1.name n)) [
  | inl h ↦ rw h refl
  | inr h ↦ rw h refl
]
has_name-append n ((a, e) ∷ es) r = elim (Bool-cases (bytes_eq e.name n)) [
  | inl h ↦ simp h refl
  | inr h ↦ simp h (has_name-append n es r)
]

pub Distinct-append :
    (es : Listed) (a : ℕ) (e : Entry)
    → has_name e.name es ≡ false
    → Distinct es
    → Distinct (es ++ (a, e) ∷ [])
Distinct-append [] a e h d = (refl, omega arith)
Distinct-append ((b, x) ∷ es) a e h (p, q) =
    let (ne, rest) = or_false (bytes_eq x.name e.name) (has_name e.name es) h in
    let back : bytes_eq e.name x.name ≡ false = elim (Bool-cases (bytes_eq e.name x.name)) [
      | inl same ↦
          let eq : e.name ≡ x.name = bytes_eq_sound e.name x.name same in
          let clash : bytes_eq x.name x.name ≡ false =
            subst (λ z. bytes_eq x.name z ≡ false) eq ne in
          let yes_self = bytes_eq_self x.name in cc
      | inr differ ↦ differ
    ] in
    (has_name-append x.name es (a, e) ∙ rw (p, back) refl, Distinct-append es a e rest q)

pub list_add-Grows : (es : Listed) (a : ℕ) (e : Entry) → Grows es (list_add es (a, e))
unfolding list_add
list_add-Grows es a e = elim (Bool-cases (has_name e.name es)) [
  | inl known ↦ simp known (Grows-self es)
  | inr new ↦
      simp new (λ n h. has_name-append n es (a, e) ∙ rw h refl, λ d. Distinct-append es a e new d)
]

pub list_add-has : (es : Listed) (a : ℕ) (e : Entry) → has_name e.name (list_add es (a, e)) ≡ true
unfolding list_add
list_add-has es a e = elim (Bool-cases (has_name e.name es)) [
  | inl known ↦ simp known refl
  | inr new ↦ simp new (has_name-append e.name es (a, e) ∙ rw (new, bytes_eq_self e.name) refl)
]

pub chain-Grows :
    (t : FileTree) (a : ℕ) (es : Listed) (is : List ℕ) → Grows es (add_chain t a es is)
unfolding add_chain
chain-Grows t a es [] = Grows-self es
chain-Grows t a es (i ∷ is) = go (entry_in t.all i) (λ fs. chain-Grows t a fs is)
  where
    go :
        (o : Option Entry)
        → ((fs : Listed) → Grows fs (add_chain t a fs is))
        → Grows es
            (elim o [ none ↦ add_chain t a es is | some e ↦ add_chain t a (list_add es (a, e)) is ])
    go none later = later es
    go (some e) later =
        Grows-both es (list_add es (a, e)) (add_chain t a (list_add es (a, e)) is)
          (list_add-Grows es a e) (later (list_add es (a, e)))

pub chain-has :
    (t : FileTree) (a : ℕ) (es : Listed) (is : List ℕ) (name : Bytes) (e : Entry)
    → find_chain t is name ≡ some e
    → has_name name (add_chain t a es is) ≡ true
unfolding find_chain add_chain
chain-has t a es [] name e h = cc
chain-has t a es (i ∷ is) name e h = go (entry_in t.all i) (λ fs k. chain-has t a fs is name e k) h
  where
    go :
        (o : Option Entry)
        → ((fs : Listed)
            → find_chain t is name ≡ some e
            → has_name name (add_chain t a fs is) ≡ true)
        → (elim o [
          | none ↦ find_chain t is name
          | some x ↦ if not x.removed && bytes_eq x.name name then some x else find_chain t is name
        ])
          ≡ some e
        → has_name name
            (elim o [ none ↦ add_chain t a es is | some x ↦ add_chain t a (list_add es (a, x)) is ])
          ≡ true
    go none later h = later es h
    go (some x) later h = elim (Bool-cases (bytes_eq x.name name)) [
      | inl same ↦ (chain-Grows t a (list_add es (a, x)) is).0 name (
          subst (λ z. has_name z (list_add es (a, x)) ≡ true) (bytes_eq_sound x.name name same)
            (list_add-has es a x))
      | inr differ ↦ later (list_add es (a, x)) (elim (Bool-cases x.removed) [
        | inl r ↦ simp (r, differ) at h
        | inr r ↦ simp (r, differ) at h
      ])
    ]

pub buckets-Grows :
    (t : FileTree) (a : ℕ) (b : ℕ → List ℕ) (n i : ℕ) (es : Listed)
    → Grows es (add_buckets t a b n i es)
unfolding add_buckets
buckets-Grows t a b zero i es = Grows-self es
buckets-Grows t a b (suc n) i es =
    Grows-both es (add_chain t a es (b i)) (add_buckets t a b n (i + 1) (add_chain t a es (b i)))
      (chain-Grows t a es (b i)) (buckets-Grows t a b n (i + 1) (add_chain t a es (b i)))

pub buckets-has :
    (t : FileTree) (a : ℕ) (b : ℕ → List ℕ) (n i h : ℕ) (es : Listed) (name : Bytes) (e : Entry)
    → i ≤ h
    → h < i + n
    → find_chain t (b h) name ≡ some e
    → has_name name (add_buckets t a b n i es) ≡ true
unfolding add_buckets
buckets-has t a b zero i h es name e low high k = absurd (omega arith)
buckets-has t a b (suc n) i h es name e low high k = elim (ℕ_discrete i h) [
  | yes here ↦
      (buckets-Grows t a b n (i + 1) (add_chain t a es (b i))).0 name
        (chain-has t a es (b i) name e (subst (λ z. find_chain t (b z) name ≡ some e) (sym here) k))
  | no ne ↦
      buckets-has t a b n (i + 1) h (add_chain t a es (b i)) name e (omega arith) (omega arith) k
]

pub own-Grows : (t : FileTree) (a : ℕ) (d : Entry) (es : Listed) → Grows es (own_entries t a d es)
own-Grows t a d es =
    if_ind (Grows es) (replaces d.mounts) es (add_buckets t a d.buckets 64 0 es)
      (λ r. Grows-self es) (λ r. buckets-Grows t a d.buckets 64 0 es)

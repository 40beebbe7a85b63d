-- ===== src/FileTree/Held.antt =====
-- The mounts that the entries of a tree hold, and the operations of o9_filetree.c that leave them.
use objective_9c.Prelude.{
  ℕ, ◌+◌, ◌≡◌, refl, ◌∙◌, inl, inr, List, [], ◌∷◌, Bool, true, false, ◌==◌, if◌then◌else◌, Option,
  some, none, subst, Bool-cases, if_ind, Bytes,
}
use objective_9c.FileTree.{
  Kind, Entry, FileTree, update, find, is_dir, push_bucket, add_entry, new_entry,
}
use objective_9c.FileTree.Entries.{
  drop_bucket, mark_removed, parent_of, put_in, put_existing, remove_in, same_kind, all_empty,
}
use objective_9c.FileTree.Mounts.{member, sources_of, mounts_of_all}
use objective_9c.FileTree.Shown.{In, In-cons, In-here, In-later}

abbrev pub Held : ℕ → List Entry → Type 0
Held m es = member m (mounts_of_all es) ≡ true

-- an entry becomes one with the same mounts, and none comes back
abbrev pub Keeps : (Entry → Entry) → Type 0
Keeps f = (e : Entry) → ((f e).mounts ≡ e.mounts) × ((f e).removed ≡ false → e.removed ≡ false)

pub In-update :
    (f : Entry → Entry) (a m : ℕ) (es : List Entry) (i : ℕ)
    → Keeps f
    → In a m (update es i f)
    → In a m es
In-update f a m [] i k h = h
In-update f a m (e ∷ es) i k h = elim (Bool-cases (e.id == i)) [
  | inl target ↦ elim (In-cons a m (f e) (update es i f) (simp target at h)) [
    | inl (stays, here) ↦
        In-here a m e es ((k e).1 stays) (subst (λ z. member m (sources_of z) ≡ true) (k e).0 here)
    | inr there ↦ In-later a m e es (In-update f a m es i k there)
  ]
  | inr other ↦ elim (In-cons a m e (update es i f) (simp other at h)) [
    | inl (stays, here) ↦ In-here a m e es stays here
    | inr there ↦ In-later a m e es (In-update f a m es i k there)
  ]
]

pub mounts-update :
    (f : Entry → Entry) (es : List Entry) (i : ℕ)
    → Keeps f
    → mounts_of_all (update es i f) ≡ mounts_of_all es
unfolding mounts_of_all
mounts-update f [] i k = refl
mounts-update f (e ∷ es) i k = elim (Bool-cases (e.id == i)) [
  | inl target ↦ simp (target, (k e).0, mounts-update f es i k) refl
  | inr other ↦ simp (other, mounts-update f es i k) refl
]

-- What an operation on the entries of a tree leaves
pub record IsKept (t u : FileTree) : Type 0 where
  pub alive : u.alive ≡ t.alive
  pub shown : (a m : ℕ) → In a m u.all → In a m t.all
  pub held : (m : ℕ) → Held m u.all → Held m t.all

pub IsKept-self : (t : FileTree) → IsKept t t
IsKept-self t = record { alive = refl; shown = λ a m h. h; held = λ m h. h }

update-IsKept :
    (t : FileTree) (f : Entry → Entry) (i : ℕ)
    → Keeps f
    → IsKept t (record t { all = update t.all i f })
update-IsKept t f i k = record {
  alive = refl;
  shown = λ a m h. In-update f a m t.all i k h;
  held = λ m h. subst (λ z. member m z ≡ true) (mounts-update f t.all i k) h;
}

both-IsKept : (t u v : FileTree) → IsKept t u → IsKept u v → IsKept t v
both-IsKept t u v p q = record {
  alive = q.alive ∙ p.alive;
  shown = λ a m h. p.shown a m (q.shown a m h);
  held = λ m h. p.held m (q.held m h);
}

abbrev pub KeptBy : FileTree → Option (FileTree × ℕ) → Type 0
KeptBy t none = t.root ≡ t.root
KeptBy t (some (u, i)) = IsKept t u

abbrev with_entry : FileTree → Entry → FileTree
with_entry t e = record t { all = e ∷ t.all }

fresh-IsKept :
    (t : FileTree) (i : ℕ) (parent : Option ℕ) (name : Bytes) (kind : Kind) (content : Option Bytes)
    (writable : Bool)
    → IsKept t (with_entry t (new_entry i parent name kind content writable))
unfolding new_entry mounts_of_all
fresh-IsKept t i parent name kind content writable = record {
  alive = refl;
  shown = λ a m h. elim (In-cons a m (new_entry i parent name kind content writable) t.all h) [
    | inl (stays, here) ↦ cc
    | inr there ↦ there
  ];
  held = λ m h. h;
}

add-IsKept :
    (t : FileTree) (i d : ℕ) (name : Bytes) (kind : Kind) (content : Option Bytes) (writable : Bool)
    → IsKept t (add_entry t i d name kind content writable)
unfolding add_entry
add-IsKept t i d name kind content writable =
    let u = with_entry t (new_entry i (some d) name kind content writable) in
    both-IsKept t u (record u { all = update u.all d (push_bucket name i) })
      (fresh-IsKept t i (some d) name kind content writable)
      (update-IsKept u (push_bucket name i) d (λ e. (refl, λ s. s)))

existing-KeptBy :
    (t : FileTree) (i : ℕ) (e : Entry) (kind : Kind) (content : Option Bytes) (writable : Bool)
    → KeptBy t (put_existing t i e kind content writable)
existing-KeptBy t i e kind content writable =
    if_ind (KeptBy t) (same_kind e.kind kind) _ none
      (λ same.
        if_ind (KeptBy t) (is_dir kind) (some (t, i)) _ (λ d. IsKept-self t)
          (λ d.
            update-IsKept t (λ x. record x { content = content; writable = writable }) e.id
              (λ x. (refl, λ s. s))))
      (λ differs. refl)

pub put_in-KeptBy :
    (t : FileTree) (i : ℕ) (path : Bytes) (kind : Kind) (content : Option Bytes) (writable : Bool)
    → KeptBy t (put_in t i path kind content writable)
unfolding put_in
put_in-KeptBy t i path kind content writable = go (parent_of t path)
  where
    leaf_case :
        (d : Entry) (leaf : Bytes) (o : Option Entry)
        → KeptBy t (elim o [
          | none ↦ some (add_entry t i d.id leaf kind content writable, i + 1)
          | some e ↦ put_existing t i e kind content writable
        ])
    leaf_case d leaf none = add-IsKept t i d.id leaf kind content writable
    leaf_case d leaf (some e) = existing-KeptBy t i e kind content writable

    go :
        (o : Option (Entry × Bytes))
        → KeptBy t (elim o [
          | none ↦ none
          | some (d, leaf) ↦ elim (find t d leaf) [
            | none ↦ some (add_entry t i d.id leaf kind content writable, i + 1)
            | some e ↦ put_existing t i e kind content writable
          ]
        ])
    go none = refl
    go (some (d, leaf)) = leaf_case d leaf (find t d leaf)

remove-IsKept :
    (t : FileTree) (d e : ℕ) (leaf : Bytes)
    → IsKept t (record t { all = update (update t.all d (drop_bucket leaf e)) e mark_removed })
remove-IsKept t d e leaf =
    let u : FileTree = record t { all = update t.all d (drop_bucket leaf e) } in
    both-IsKept t u (record u { all = update u.all e mark_removed })
      (update-IsKept t (drop_bucket leaf e) d (λ x. (refl, λ s. s)))
      (update-IsKept u mark_removed e (λ x. (refl, λ s. cc)))

pub remove_in-KeptBy : (t : FileTree) (i : ℕ) (path : Bytes) → KeptBy t (remove_in t i path)
unfolding remove_in
remove_in-KeptBy t i path = go (parent_of t path)
  where
    leaf_case :
        (d : Entry) (leaf : Bytes) (o : Option Entry)
        → KeptBy t (elim o [
          | none ↦ none
          | some e ↦
              if all_empty 64 e.buckets
              then some (
                record t {
                  all = update (update t.all d.id (drop_bucket leaf e.id)) e.id mark_removed;
                },
                i,
              )
              else none
        ])
    leaf_case d leaf none = refl
    leaf_case d leaf (some e) =
        if_ind (KeptBy t) (all_empty 64 e.buckets) _ none (λ empty. remove-IsKept t d.id e.id leaf)
          (λ full. refl)

    go :
        (o : Option (Entry × Bytes))
        → KeptBy t (elim o [
          | none ↦ none
          | some (d, leaf) ↦ elim (find t d leaf) [
            | none ↦ none
            | some e ↦
                if all_empty 64 e.buckets
                then some (
                  record t {
                    all = update (update t.all d.id (drop_bucket leaf e.id)) e.id mark_removed;
                  },
                  i,
                )
                else none
          ]
        ])
    go none = refl
    go (some (d, leaf)) = leaf_case d leaf (find t d leaf)

-- ===== src/FileTree/Found.antt =====
-- The entries that a mount spec of o9_filetree.c names, and the trees that ft_resolve finds.
use objective_9c.Prelude.{
  ℕ, ◌≡◌, refl, ◌≢◌, inl, inr, List, [], ◌∷◌, true, ◌&&◌, ◌==◌, not, if◌then◌else◌, Option, some,
  none, subst, Bool-cases, if_ind, Bytes, bytes_eq, codes,
}
use objective_9c.FileTree.{
  Store, Entry, FileTree, Source, entry_in, tree_in, find, find_chain, is_dir, bucket, name_ok,
}
use objective_9c.FileTree.Entries.{split_path, is_relative}
use objective_9c.FileTree.Mounts.{
  member, sources_of, mounts_of_all, target_from, target_of, resolve_from, is_alive, alive_of,
}
use objective_9c.FileTree.Shown.{member-append_left, member-append_right}
use objective_9c.FileTree.Held.{Held}

abbrev pub InUse : Store → ℕ → Type 0
InUse s m = tree_in s.trees m ≢ none

-- an entry that a search gives is one of the tree
abbrev pub Of : FileTree → Option Entry → Type 0
Of t none = t.root ≡ t.root
Of t (some e) = (m : ℕ) → member m (sources_of e.mounts) ≡ true → Held m t.all

entry_in-Held :
    (es : List Entry) (i : ℕ) (e : Entry) (m : ℕ)
    → entry_in es i ≡ some e
    → member m (sources_of e.mounts) ≡ true
    → Held m es
unfolding mounts_of_all
entry_in-Held [] i e m h k = cc
entry_in-Held (d ∷ ds) i e m h k = elim (Bool-cases (d.id == i)) [
  | inl here ↦
      let same : some d ≡ some e = rw here at h in
      let same_mounts : e.mounts ≡ d.mounts = cc in
      member-append_left m (sources_of d.mounts) (mounts_of_all ds)
        (subst (λ z. member m (sources_of z) ≡ true) same_mounts k)
  | inr other ↦
      member-append_right m (sources_of d.mounts) (mounts_of_all ds)
        (entry_in-Held ds i e m (rw other at h) k)
]

entry-Of : (t : FileTree) (i : ℕ) (o : Option Entry) → entry_in t.all i ≡ o → Of t o
entry-Of t i none h = refl
entry-Of t i (some e) h = λ m k. entry_in-Held t.all i e m h k

chain-Of : (t : FileTree) (is : List ℕ) (name : Bytes) → Of t (find_chain t is name)
unfolding find_chain
chain-Of t [] name = refl
chain-Of t (i ∷ is) name =
    go (entry_in t.all i) (entry-Of t i (entry_in t.all i) refl) (chain-Of t is name)
  where
    go :
        (o : Option Entry)
        → Of t o
        → Of t (find_chain t is name)
        → Of t (elim o [
          | none ↦ find_chain t is name
          | some e ↦ if not e.removed && bytes_eq e.name name then some e else find_chain t is name
        ])
    go none h rest = rest
    go (some e) h rest =
        if_ind (Of t) (not e.removed && bytes_eq e.name name) (some e) (find_chain t is name)
          (λ k. h) (λ k. rest)

find-Of : (t : FileTree) (d : Entry) (name : Bytes) → Of t (find t d name)
unfolding find
find-Of t d name =
    if_ind (Of t) (is_dir d.kind) (find_chain t (d.buckets (bucket name)) name) none
      (λ k. chain-Of t (d.buckets (bucket name)) name) (λ k. refl)

from-Of :
    (t : FileTree) (d : Entry) (name : Bytes) (names : List Bytes)
    → Of t (target_from t d name names)
unfolding target_from
from-Of t d name [] =
    if_ind (Of t) (name_ok name) _ none (λ k. go (find t d name) (find-Of t d name)) (λ k. refl)
  where
    go :
        (o : Option Entry)
        → Of t o
        → Of t (elim o [ none ↦ none | some e ↦ if is_dir e.kind then some e else none ])
    go none h = refl
    go (some e) h = if_ind (Of t) (is_dir e.kind) (some e) none (λ k. h) (λ k. refl)
from-Of t d name (n ∷ ns) =
    if_ind (Of t) (name_ok name) _ none (λ k. go (find t d name) (λ e. from-Of t e n ns))
      (λ k. refl)
  where
    go :
        (o : Option Entry)
        → ((e : Entry) → Of t (target_from t e n ns))
        → Of t
            (elim o [ none ↦ none | some e ↦ if is_dir e.kind then target_from t e n ns else none ])
    go none later = refl
    go (some e) later =
        if_ind (Of t) (is_dir e.kind) (target_from t e n ns) none (λ k. later e) (λ k. refl)

pub target-Of : (t : FileTree) (path : Bytes) → Of t (target_of t path)
unfolding target_of
target-Of t path = go (entry_in t.all t.root) (entry-Of t t.root (entry_in t.all t.root) refl)
  where
    go :
        (o : Option Entry)
        → Of t o
        → Of t (elim o [
          | none ↦ none
          | some r ↦
              if not (is_relative path)
              then none
              else if bytes_eq path (codes ".")
              then some r
              else target_from t r (split_path path).0 (split_path path).1
        ])
    go none h = refl
    go (some r) h =
        if_ind (Of t) (not (is_relative path)) none _ (λ k. refl)
          (λ k.
            if_ind (Of t) (bytes_eq path (codes ".")) (some r) _ (λ j. h)
              (λ j. from-Of t r (split_path path).0 (split_path path).1))

-- ft_resolve gives trees that are in use
abbrev pub Found : Store → Option ℕ → Type 0
Found s none = s.next_id ≡ s.next_id
Found s (some a) = InUse s a

alive-InUse : (s : Store) (a : ℕ) → is_alive s a ≡ true → InUse s a
alive-InUse s a h gone =
    let clash : alive_of none ≡ true = subst (λ o. alive_of o ≡ true) gone h in cc

pub resolve-Found : (s : Store) (xs : List Source) (id : Bytes) → Found s (resolve_from s xs id)
unfolding resolve_from
resolve-Found s [] id = refl
resolve-Found s (x ∷ xs) id = elim (Bool-cases (bytes_eq x.id id)) [
  | inl match ↦ elim (Bool-cases (is_alive s x.tree)) [
    | inl alive ↦ simp (match, alive) (alive-InUse s x.tree alive)
    | inr dead ↦ simp (match, dead) (resolve-Found s xs id)
  ]
  | inr other ↦ simp other (resolve-Found s xs id)
]

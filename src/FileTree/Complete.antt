-- ===== src/FileTree/Complete.antt =====
-- A listing of o9_filetree.c names every entry that a lookup in the directory finds.
use objective_9c.Prelude.{
  ℕ, zero, suc, ◌<◌, ◌≡◌, refl, ◌∙◌, [], Option, some, none, Bool, true, ◌&&◌, ◌||◌, not, ◌==◌,
  if◌then◌else◌, arith, Bytes, Bool-cases, inl, inr, if_ind, subst,
}
use objective_9c.FileTree.{Store, Mount, Entry, FileTree, tree_in, is_dir, find, find_chain, bucket}
use objective_9c.FileTree.Mounts.{
  is_alive, replaces, root_of, lookup_mount, filetree_lookup, first_mount, or_else, own_entry,
}
use objective_9c.FileTree.Listing.{
  Listed, has_name, each_mount, then_list, own_entries, collect, filetree_entries, add_buckets,
}
use objective_9c.FileTree.Listed.{Kept, Has, Kept-then, Has-then, Has-later, each-Kept, each-Has}
use objective_9c.FileTree.Grown.{Distinct, own-Grows, buckets-has}

bucket_small : (name : Bytes) → bucket name < 64
unfolding bucket
bucket_small name = omega arith

own-has :
    (t : FileTree) (a : ℕ) (d : Entry) (name : Bytes) (r : ℕ × Entry) (es : Listed)
    → own_entry t a d name ≡ some r
    → has_name name (own_entries t a d es) ≡ true
unfolding find
own-has t a d name r es h = elim (Bool-cases (replaces d.mounts)) [
  | inl gone ↦ let clash : none ≡ some r = simp gone at h in cc
  | inr stays ↦ elim (Bool-cases (is_dir d.kind)) [
    | inl folder ↦
        simp stays
          (go (find_chain t (d.buckets (bucket name)) name) refl (simp (stays, folder) at h))
    | inr file ↦ let clash : none ≡ some r = simp (stays, file) at h in cc
  ]
]
  where
    go :
        (o : Option Entry)
        → find_chain t (d.buckets (bucket name)) name ≡ o
        → (elim o [ none ↦ none | some e ↦ some (a, e) ]) ≡ some r
        → has_name name (add_buckets t a d.buckets 64 0 es) ≡ true
    go none e k = cc
    go (some x) e k =
        buckets-has t a d.buckets 64 0 (bucket name) es name x (omega arith)
          (omega (arith, bucket_small name)) e

-- the part behind the first mounts, of a listing
abbrev rest_of : (Mount → Listed → Option Listed) → FileTree → ℕ → Entry → Listed → Option Listed
rest_of f t a d fs = each_mount (λ mode. mode == 2) f d.mounts (own_entries t a d fs)

rest-Kept :
    (f : Mount → Listed → Option Listed) (t : FileTree) (a : ℕ) (d : Entry) (fs : Listed)
    → ((m : Mount) (es : Listed) → Kept es (f m es))
    → Kept fs (rest_of f t a d fs)
rest-Kept f t a d fs keeps =
    Kept-then fs (some (own_entries t a d fs)) (each_mount (λ mode. mode == 2) f d.mounts)
      (own-Grows t a d fs) (λ gs. each-Kept (λ mode. mode == 2) f keeps d.mounts gs)

collect-Kept :
    (rounds : ℕ) (s : Store) (d : Option (ℕ × Entry)) (es : Listed)
    → Kept es (collect rounds s d es)
unfolding collect
collect-Kept zero s d es = omega arith
collect-Kept (suc rounds) s none es = omega arith
collect-Kept (suc rounds) s (some (a, d)) es =
    go (tree_in s.trees a) (λ m fs. collect-Kept rounds s (root_of s m.source) fs)
  where
    f : Mount → Listed → Option Listed
    f m fs = collect rounds s (root_of s m.source) fs

    first : ℕ → Bool
    first mode = mode == 0 || mode == 1

    go :
        (o : Option FileTree)
        → ((m : Mount) (fs : Listed) → Kept fs (f m fs))
        → Kept es (elim o [
          | none ↦ none
          | some t ↦
              if is_dir d.kind && (not d.removed && t.alive)
              then then_list (each_mount first f d.mounts es) (rest_of f t a d)
              else none
        ])
    go none keeps = omega arith
    go (some t) keeps =
        if_ind (Kept es) (is_dir d.kind && (not d.removed && t.alive))
          (then_list (each_mount first f d.mounts es) (rest_of f t a d)) none
          (λ ok.
            Kept-then es (each_mount first f d.mounts es) (rest_of f t a d)
              (each-Kept first f keeps d.mounts es) (λ fs. rest-Kept f t a d fs keeps))
          (λ bad. omega arith)

collect-Has :
    (rounds : ℕ) (s : Store) (name : Bytes) (r : ℕ × Entry) (d : Option (ℕ × Entry)) (es : Listed)
    → lookup_mount rounds s name d ≡ some r
    → Has name (collect rounds s d es)
unfolding collect lookup_mount
collect-Has zero s name r d es h = omega arith
collect-Has (suc rounds) s name r none es h = omega arith
collect-Has (suc rounds) s name r (some (a, d)) es h =
    go (tree_in s.trees a) (λ m fs k. collect-Has rounds s name r (root_of s m.source) fs k) h
  where
    f : Mount → Listed → Option Listed
    f m fs = collect rounds s (root_of s m.source) fs

    g : Mount → Option (ℕ × Entry)
    g m = lookup_mount rounds s name (root_of s m.source)

    keeps : (m : Mount) (fs : Listed) → Kept fs (f m fs)
    keeps m fs = collect-Kept rounds s (root_of s m.source) fs

    first : ℕ → Bool
    first mode = mode == 0 || mode == 1

    second : ℕ → Bool
    second mode = mode == 2

    found :
        (t : FileTree)
        → ((m : Mount) (fs : Listed) → g m ≡ some r → Has name (f m fs))
        → (x y : Option (ℕ × Entry)) → first_mount first g d.mounts ≡ x
        → own_entry t a d name ≡ y
        → or_else x (or_else y (first_mount second g d.mounts)) ≡ some r
        → Has name (then_list (each_mount first f d.mounts es) (rest_of f t a d))
    found t puts (some x) y e k h =
        Has-then name (each_mount first f d.mounts es) (rest_of f t a d)
          (each-Has first f keeps g name r puts d.mounts es (e ∙ h))
          (λ fs. rest-Kept f t a d fs keeps)
    found t puts none (some y) e k h =
        Has-later name (each_mount first f d.mounts es) (rest_of f t a d) (λ fs.
          Has-then name (some (own_entries t a d fs)) (each_mount second f d.mounts)
            (own-has t a d name r fs (k ∙ h)) (λ gs. each-Kept second f keeps d.mounts gs))
    found t puts none none e k h =
        Has-later name (each_mount first f d.mounts es) (rest_of f t a d)
          (λ fs. each-Has second f keeps g name r puts d.mounts (own_entries t a d fs) h)

    go :
        (o : Option FileTree)
        → ((m : Mount) (fs : Listed) → g m ≡ some r → Has name (f m fs))
        → (elim o [
          | none ↦ none
          | some t ↦
              if is_dir d.kind && (not d.removed && t.alive)
              then or_else
                  (first_mount first g d.mounts)
                  (or_else (own_entry t a d name) (first_mount second g d.mounts))
              else none
        ])
          ≡ some r
        → Has name (elim o [
          | none ↦ none
          | some t ↦
              if is_dir d.kind && (not d.removed && t.alive)
              then then_list (each_mount first f d.mounts es) (rest_of f t a d)
              else none
        ])
    go none puts h = omega arith
    go (some t) puts h = elim (Bool-cases (is_dir d.kind && (not d.removed && t.alive))) [
      | inl ok ↦ simp ok (
          found t puts (first_mount first g d.mounts) (own_entry t a d name) refl refl
            (simp ok at h))
      | inr bad ↦ simp bad (omega arith)
    ]

-- Where the listing of a directory succeeds, no name stands in it twice, and it has every name that a
-- lookup in the directory finds, in the directory itself or behind mounts.
pub entries_lem :
    (s : Store) (a b : ℕ) (d : Entry) (fs : Listed)
    → filetree_entries s a (b, d) ≡ some fs
    → Distinct fs
      × ((name : Bytes) (r : ℕ × Entry)
          → filetree_lookup s a (some (b, d)) name ≡ some r
          → has_name name fs ≡ true)
unfolding filetree_entries filetree_lookup
entries_lem s a b d fs h = elim (Bool-cases (is_dir d.kind)) [
  | inr file ↦ let clash : none ≡ some fs = simp file at h in cc
  | inl folder ↦ elim (Bool-cases (is_alive s a)) [
    | inr dead ↦ let clash : none ≡ some fs = simp (folder, dead) at h in cc
    | inl alive ↦
        let made : collect 65 s (some (b, d)) [] ≡ some fs = simp (folder, alive) at h in
        (
          (subst (Kept []) made (collect-Kept 65 s (some (b, d)) [])).1 (omega arith),
          λ name r k.
              subst (Has name) made (collect-Has 65 s name r (some (b, d)) [] (simp alive at k)),
        )
  ]
]

-- ===== src/FileTree/Listed.antt =====
-- What a listing of o9_filetree.c holds: no name twice, and every name that a lookup finds.
use objective_9c.Prelude.{
  ℕ, ◌≤◌, ◌≡◌, refl, sym, ◌∙◌, List, [], ◌∷◌, Option, some, none, Bool, true, if◌then◌else◌, arith,
  Bytes, Bool-cases, inl, inr, if_ind, subst,
}
use objective_9c.FileTree.{Mount, Entry}
use objective_9c.FileTree.Mounts.{first_mount}
use objective_9c.FileTree.Listing.{Listed, has_name, each_mount, then_list}
use objective_9c.FileTree.Grown.{Grows, Grows-self, Grows-both}

-- of a result that may fail
abbrev pub Kept : Listed → Option Listed → Type 0
Kept es none = 0 ≤ 0
Kept es (some fs) = Grows es fs

abbrev pub Has : Bytes → Option Listed → Type 0
Has name none = 0 ≤ 0
Has name (some fs) = has_name name fs ≡ true

-- What holds of what came before holds of what an operation on it gives.
pub Kept-then :
    (es : Listed) (o : Option Listed) (f : Listed → Option Listed)
    → Kept es o
    → ((fs : Listed) → Kept fs (f fs))
    → Kept es (then_list o f)
Kept-then es none f k later = omega arith
Kept-then es (some fs) f k later = go (f fs) (later fs)
  where
    go : (o : Option Listed) → Kept fs o → Kept es o
    go none h = omega arith
    go (some gs) h = Grows-both es fs gs k h

pub Has-then :
    (name : Bytes) (o : Option Listed) (f : Listed → Option Listed)
    → Has name o
    → ((fs : Listed) → Kept fs (f fs))
    → Has name (then_list o f)
Has-then name none f k later = omega arith
Has-then name (some fs) f k later = go (f fs) (later fs)
  where
    go : (o : Option Listed) → Kept fs o → Has name o
    go none h = omega arith
    go (some gs) h = h.0 name k

pub Has-later :
    (name : Bytes) (o : Option Listed) (f : Listed → Option Listed)
    → ((fs : Listed) → Has name (f fs))
    → Has name (then_list o f)
Has-later name none f later = omega arith
Has-later name (some fs) f later = later fs

module _ (test : ℕ → Bool) (f : Mount → Listed → Option Listed)
    (keeps : (m : Mount) (es : Listed) → Kept es (f m es)) where
  -- the mount at hand, if it is of this kind
  at_hand : Mount → Listed → Option Listed
  at_hand m es = if test m.mode then f m es else some es

  at_hand-Kept : (m : Mount) (es : Listed) → Kept es (at_hand m es)
  unfolding at_hand
  at_hand-Kept m es =
      if_ind (Kept es) (test m.mode) (f m es) (some es) (λ k. keeps m es) (λ k. Grows-self es)

  each-then :
      (m : Mount) (ms : List Mount) (es : Listed)
      → each_mount test f (m ∷ ms) es ≡ then_list (at_hand m es) (each_mount test f ms)
  unfolding each_mount at_hand
  each-then m ms es = go (if test m.mode then f m es else some es)
    where
      go :
          (o : Option Listed)
          → (elim o [ none ↦ none | some fs ↦ each_mount test f ms fs ])
            ≡ then_list o (each_mount test f ms)
      go none = refl
      go (some fs) = refl

  pub each-Kept : (ms : List Mount) (es : Listed) → Kept es (each_mount test f ms es)
  unfolding each_mount
  each-Kept [] es = Grows-self es
  each-Kept (m ∷ ms) es = subst (Kept es) (sym (each-then m ms es)) (
      Kept-then es (at_hand m es) (each_mount test f ms) (at_hand-Kept m es)
        (λ fs. each-Kept ms fs))

  -- a mount that a lookup finds a name behind puts the name into the list
  pub each-Has :
      (g : Mount → Option (ℕ × Entry)) (name : Bytes) (r : ℕ × Entry)
      → ((m : Mount) (es : Listed) → g m ≡ some r → Has name (f m es))
      → (ms : List Mount) (es : Listed) → first_mount test g ms ≡ some r
      → Has name (each_mount test f ms es)
  unfolding at_hand
  each-Has g name r puts [] es h = cc
  each-Has g name r puts (m ∷ ms) es h =
      subst (Has name) (sym (each-then m ms es)) (elim (Bool-cases (test m.mode)) [
        | inr other ↦
            Has-later name (at_hand m es) (each_mount test f ms)
              (λ fs. each-Has g name r puts ms fs (rw other at h))
        | inl this ↦
            found (g m) refl (rw this at h)
              (λ k.
                Has-then name (at_hand m es) (each_mount test f ms) (rw this (puts m es k))
                  (λ fs. each-Kept ms fs))
              (λ k.
                Has-later name (at_hand m es) (each_mount test f ms)
                  (λ fs. each-Has g name r puts ms fs k))
      ])
    where
      found :
          (o : Option (ℕ × Entry))
          → g m ≡ o
          → (elim o [ none ↦ first_mount test g ms | some x ↦ some x ]) ≡ some r
          → (g m ≡ some r → Has name (then_list (at_hand m es) (each_mount test f ms)))
          → (first_mount test g ms ≡ some r
              → Has name (then_list (at_hand m es) (each_mount test f ms)))
          → Has name (then_list (at_hand m es) (each_mount test f ms))
      found none e h here later = later h
      found (some x) e h here later = here (e ∙ h)

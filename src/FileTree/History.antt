-- ===== src/FileTree/History.antt =====
-- All sequences of the operations of o9_filetree.c, and what the destruction of a tree leaves.
use objective_9c.Prelude.{
  ℕ, ◌≡◌, List, Bool, true, false, ◌||◌, ◌==◌, not, Option, some, none, Bool-cases, inl, inr, Bytes,
}
use objective_9c.FileTree.{Kind, Store, FileTree, tree_in, filetree_new}
use objective_9c.FileTree.Entries.{put, filetree_remove, filetree_revoke, filetree_close}
use objective_9c.FileTree.Mounts.{
  Spec, filetree_register, filetree_apply_specs, filetree_destroy, destroy_to, without_tree,
  names_tree, mounted_elsewhere,
}
use objective_9c.FileTree.Reaches.{or_false}
use objective_9c.FileTree.Held.{Held}
use objective_9c.FileTree.System.{IsValid, start, start-IsValid}
use objective_9c.FileTree.Steps.{
  put-IsValid, remove-IsValid, revoke-IsValid, close-IsValid, apply-IsValid, register-IsValid,
}
use objective_9c.FileTree.Lifetime.{new-IsValid, destroyed-IsValid, without_self}

destroy_cases :
    (self : ℕ) (s : Store) (a : ℕ)
    → IsValid s
    → (P : Store × Bool → Type 0) → P (s, false)
    → (IsValid (record s { trees = without_tree s.trees a })
        → P (record s { trees = without_tree s.trees a }, true))
    → P (filetree_destroy self s a)
unfolding filetree_destroy destroy_to
destroy_cases self s a v P fails succeeds = go (tree_in s.trees a)
  where
    go : (o : Option FileTree) → P (destroy_to self s a o)
    go none = fails
    go (some t) =
        let refused = t.alive || (names_tree s.sources a || mounted_elsewhere s.trees a) in
        elim (Bool-cases (not (t.owner == self) || refused)) [
          | inl no_way ↦ simp no_way fails
          | inr ok ↦
              let (own, r) = or_false (not (t.owner == self)) refused ok in
              let (dead, free) =
                or_false t.alive (names_tree s.sources a || mounted_elsewhere s.trees a) r in
              let (unnamed, unmounted) =
                or_false (names_tree s.sources a) (mounted_elsewhere s.trees a) free in
              simp ok (succeeds (destroyed-IsValid s a v unnamed unmounted))
        ]

-- Where a valid store's tree is destroyed with success, the store stays valid, the tree is in use no
-- longer, and no entry of a tree in use holds a mount of it.
pub destroy_lem :
    (self : ℕ) (s : Store) (a : ℕ)
    → IsValid s
    → (filetree_destroy self s a).1 ≡ true
    → IsValid (filetree_destroy self s a).0
      × (tree_in (filetree_destroy self s a).0.trees a ≡ none)
      × ((b : ℕ) (t : FileTree)
          → tree_in (filetree_destroy self s a).0.trees b ≡ some t
          → Held a t.all
          → ⊥)
destroy_lem self s a v =
    destroy_cases self s a v
      (λ r.
        r.1 ≡ true
        → IsValid r.0
          × (tree_in r.0.trees a ≡ none)
          × ((b : ℕ) (t : FileTree) → tree_in r.0.trees b ≡ some t → Held a t.all → ⊥))
      (λ clash. cc)
      (λ valid ok.
        let gone = without_self s.trees a v.unique in
        (valid, gone, λ b t at_b h. valid.linked b t at_b a h gone))

-- one call of an operation, by the actor `self`
pub data Step (s : Store) : Store → Type 0 where
  created : (self : ℕ) → Step s (filetree_new self s).0
  written :
      (self a : ℕ) (path : Bytes) (kind : Kind) (content : Option Bytes) (writable : Bool)
      → Step s (put self s a path kind content writable).0
  removed : (self a : ℕ) (path : Bytes) → Step s (filetree_remove self s a path).0
  revoked : (a : ℕ) → Step s (filetree_revoke s a)
  closed : (self a : ℕ) → Step s (filetree_close self s a)
  registered : (self a : ℕ) (id : Bytes) → Step s (filetree_register self s a id).0
  applied_specs : (self a : ℕ) (xs : List Spec) → Step s (filetree_apply_specs self s a xs).0
  destroyed : (self a : ℕ) → Step s (filetree_destroy self s a).0

pub data History : Store → Type 0 where
  fresh : History start
  next : (s t : Store) → History s → Step s t → History t

step-IsValid : (s t : Store) → Step s t → IsValid s → IsValid t
step-IsValid s _ (created self) v = new-IsValid self s v
step-IsValid s _ (written self a path kind content writable) v =
    put-IsValid self s a path kind content writable v
step-IsValid s _ (removed self a path) v = remove-IsValid self s a path v
step-IsValid s _ (revoked a) v = revoke-IsValid s a v
step-IsValid s _ (closed self a) v = close-IsValid self s a v
step-IsValid s _ (registered self a id) v = register-IsValid self s a id v
step-IsValid s _ (applied_specs self a xs) v = apply-IsValid self s a xs v
step-IsValid s _ (destroyed self a) v =
    destroy_cases self s a v (λ r. IsValid r.0) v (λ valid. valid)

-- After any sequence of operations by any actors, no tree leads to itself through mounts, every mount
-- that an entry holds is of a tree that is not freed, and every registered source is alive.
pub History-IsValid : (s : Store) → History s → IsValid s
History-IsValid _ fresh = start-IsValid
History-IsValid _ (next s t h step) = step-IsValid s t step (History-IsValid s h)

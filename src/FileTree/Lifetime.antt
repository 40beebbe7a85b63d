-- ===== src/FileTree/Lifetime.antt =====
-- The creation and the destruction of trees of o9_filetree.c, and all sequences of its operations.
use objective_9c.Prelude.{
  ℕ, ◌≡◌, refl, sym, ap, ◌∙◌, ◌≢◌, ◌⊎◌, inl, inr, List, [], ◌∷◌, true, false, ◌&&◌, ◌==◌, not,
  arith, some, none, subst, Bool-cases, ℕ_discrete, codes,
}
use objective_9c.FileTree.{
  Kind, dir, Store, Source, Entry, FileTree, tree_in, filetree_new, new_entry,
}
use objective_9c.FileTree.Mounts.{
  Spec, member, mounted_in, mounted_of, mounted, mounts_of_all, sources_of, is_alive, alive_of,
  filetree_register, filetree_apply_specs, filetree_destroy, destroy_to, without_tree, names_tree,
  mounted_elsewhere,
}
use objective_9c.FileTree.Reaches.{or_false}
use objective_9c.FileTree.Acyclic.{Mounted, fewer-IsAcyclic}
use objective_9c.FileTree.Held.{Held}
use objective_9c.FileTree.Found.{InUse}
use objective_9c.FileTree.System.{IsValid, AllAlive, AllAlive-mono, Unique}

-- a store whose trees give every tree that is looked up as before, or one without mounts
module _ (s s' : Store) where
  pub subset_mounts :
      ((b : ℕ) → (tree_in s'.trees b ≡ tree_in s.trees b) ⊎ (mounted_in [] s' b ≡ []))
      → (b c : ℕ) → Mounted s' b c
      → Mounted s b c
  unfolding mounted_in
  subset_mounts f b c m = elim (f b) [
    | inl same ↦ subst (λ z. member c (mounted_of [] b z) ≡ true) same m
    | inr empty ↦ let clash : false ≡ true = rw empty at m in cc
  ]

new_tree : ℕ → Store → FileTree
new_tree self s = record {
  owner = self;
  alive = true;
  root = s.next_id;
  all = new_entry s.next_id none (codes ".") dir none false ∷ [];
}

pub new-IsValid : (self : ℕ) (s : Store) → IsValid s → IsValid (filetree_new self s).0
unfolding filetree_new mounted_in mounted new_entry mounts_of_all new_tree
    objective_9c.FileTree.Mounts.plan_for
new-IsValid self s v = record {
  acyclic = fewer-IsAcyclic s s' (subset_mounts s s' same_or_empty) v.acyclic;
  linked = held;
  alive = AllAlive-mono s s' s.sources still_alive v.alive;
  unique = (v.below s.next_tree (omega arith), v.unique);
  below = λ b h.
      let miss : (s.next_tree == b) ≡ false = ground arith in simp miss (v.below b (omega arith));
}
  where
    s' : Store
    s' = (filetree_new self s).0

    same_or_empty : (b : ℕ) → (tree_in s'.trees b ≡ tree_in s.trees b) ⊎ (mounted_in [] s' b ≡ [])
    same_or_empty b = elim (Bool-cases (s.next_tree == b)) [
      | inl here ↦ inr (simp here refl)
      | inr other ↦ inl (simp other refl)
    ]

    used : (m : ℕ) → InUse s m → InUse s' m
    used m u gone = elim (Bool-cases (s.next_tree == m)) [
      | inl here ↦ let clash : some (new_tree self s) ≡ none = simp here at gone in cc
      | inr other ↦ u (simp other at gone)
    ]

    held :
        (b : ℕ) (t : FileTree) → tree_in s'.trees b ≡ some t → (m : ℕ) → Held m t.all → InUse s' m
    held b t at_b m h = elim (Bool-cases (s.next_tree == b)) [
      | inl here ↦
          let e : some (new_tree self s) ≡ some t = simp here at at_b in
          let same : t.all ≡ (new_tree self s).all = cc in
          let clash : false ≡ true = subst (λ z. Held m z) same h in cc
      | inr other ↦ used m (v.linked b t (simp other at at_b) m h)
    ]

    still_alive : (b : ℕ) → is_alive s b ≡ true → is_alive s' b ≡ true
    still_alive b h = elim (Bool-cases (s.next_tree == b)) [
      | inl here ↦ simp here refl
      | inr other ↦ simp other h
    ]

-- the tree that is destroyed is in use no longer, and the others are as they were
pub without_self :
    (ts : List (ℕ × FileTree)) (a : ℕ) → Unique ts → tree_in (without_tree ts a) a ≡ none
unfolding without_tree
without_self [] a u = refl
without_self ((b, t) ∷ ts) a (h, u) = elim (ℕ_discrete b a) [
  | yes e ↦ let k : (b == a) ≡ true = ground arith in simp k (subst (λ z. tree_in ts z ≡ none) e h)
  | no ne ↦ let k : (b == a) ≡ false = ground arith in simp k (without_self ts a u)
]

without_ne :
    (ts : List (ℕ × FileTree)) (a b : ℕ) → b ≢ a → tree_in (without_tree ts a) b ≡ tree_in ts b
unfolding without_tree
without_ne [] a b ne = refl
without_ne ((c, t) ∷ ts) a b ne = elim (ℕ_discrete c a) [
  | yes e ↦
      let k : (c == a) ≡ true = ground arith in
      let j : (c == b) ≡ false = ground arith in simp (k, j) refl
  | no other ↦ let k : (c == a) ≡ false = ground arith in rw (k, without_ne ts a b ne) refl
]

without-Unique : (ts : List (ℕ × FileTree)) (a : ℕ) → Unique ts → Unique (without_tree ts a)
unfolding without_tree
without-Unique [] a u = u
without-Unique ((b, t) ∷ ts) a (h, u) = elim (ℕ_discrete b a) [
  | yes e ↦ let k : (b == a) ≡ true = ground arith in simp k u
  | no ne ↦
      let k : (b == a) ≡ false = ground arith in
      simp k (without_ne ts a b ne ∙ h, without-Unique ts a u)
]

not_elsewhere :
    (ts : List (ℕ × FileTree)) (a b : ℕ) (t : FileTree)
    → mounted_elsewhere ts a ≡ false
    → tree_in ts b ≡ some t
    → b ≢ a
    → Held a t.all
    → ⊥
unfolding mounted_elsewhere
not_elsewhere [] a b t f at_b ne h = cc
not_elsewhere ((c, u) ∷ ts) a b t f at_b ne h =
    let (first, rest) =
      or_false (not (c == a) && member a (mounts_of_all u.all)) (mounted_elsewhere ts a) f in
    elim (Bool-cases (c == b)) [
      | inl here ↦
          let e : some u ≡ some t = simp here at at_b in
          let same : t.all ≡ u.all = cc in
          let k : (c == a) ≡ false = ground arith in
          let clash : member a (mounts_of_all u.all) ≡ false = simp k at first in
          let m : Held a u.all = subst (λ z. Held a z) same h in cc
      | inr other ↦ not_elsewhere ts a b t rest (simp other at at_b) ne h
    ]

AllAlive-unnamed :
    (s s' : Store) (xs : List Source) (a : ℕ)
    → names_tree xs a ≡ false
    → ((b : ℕ) → b ≢ a → is_alive s b ≡ true → is_alive s' b ≡ true)
    → AllAlive s xs
    → AllAlive s' xs
AllAlive-unnamed s s' [] a n f h = refl
AllAlive-unnamed s s' (x ∷ xs) a n f (h, k) =
    let (first, rest) = or_false (x.tree == a) (names_tree xs a) n in
    let ne : x.tree ≢ a = λ e. ground arith in (f x.tree ne h, AllAlive-unnamed s s' xs a rest f k)

pub destroyed-IsValid :
    (s : Store) (a : ℕ)
    → IsValid s
    → names_tree s.sources a ≡ false
    → mounted_elsewhere s.trees a ≡ false
    → IsValid (record s { trees = without_tree s.trees a })
unfolding mounted_in
destroyed-IsValid s a v unnamed unmounted = record {
  acyclic = fewer-IsAcyclic s s' (subset_mounts s s' same_or_empty) v.acyclic;
  linked = held;
  alive =
      AllAlive-unnamed s s' s.sources a unnamed
        (λ b ne h. ap alive_of (without_ne s.trees a b ne) ∙ h) v.alive;
  unique = without-Unique s.trees a v.unique;
  below = λ b h. still_none b (v.below b h);
}
  where
    s' : Store
    s' = record s { trees = without_tree s.trees a }

    still_none : (b : ℕ) → tree_in s.trees b ≡ none → tree_in s'.trees b ≡ none
    still_none b h = elim (ℕ_discrete b a) [
      | yes e ↦ subst (λ z. tree_in s'.trees z ≡ none) (sym e) (without_self s.trees a v.unique)
      | no ne ↦ without_ne s.trees a b ne ∙ h
    ]

    same_or_empty : (b : ℕ) → (tree_in s'.trees b ≡ tree_in s.trees b) ⊎ (mounted_in [] s' b ≡ [])
    same_or_empty b = elim (ℕ_discrete b a) [
      | yes e ↦
          inr (
            ap (mounted_of [] b) (ap (λ z. tree_in s'.trees z) e ∙ without_self s.trees a v.unique))
      | no ne ↦ inl (without_ne s.trees a b ne)
    ]

    held :
        (b : ℕ) (t : FileTree) → tree_in s'.trees b ≡ some t → (m : ℕ) → Held m t.all → InUse s' m
    held b t at_b m h gone = elim (ℕ_discrete b a) [
      | yes e ↦
          let clash : none ≡ some t =
            sym (without_self s.trees a v.unique) ∙ sym (ap (λ z. tree_in s'.trees z) e) ∙ at_b in
          cc
      | no ne ↦
          let before : tree_in s.trees b ≡ some t = sym (without_ne s.trees a b ne) ∙ at_b in
          elim (ℕ_discrete m a) [
            | yes e ↦
                not_elsewhere s.trees a b t unmounted before ne (subst (λ z. Held z t.all) e h)
            | no other ↦ v.linked b t before m h (sym (without_ne s.trees a m other) ∙ gone)
          ]
    ]

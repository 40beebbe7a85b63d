-- ===== src/FileTree/System.antt =====
-- All sequences of the operations of o9_filetree.c.
use objective_9c.Prelude.{
  ℕ, ◌≤◌, ◌≡◌, refl, sym, ap, ◌∙◌, ◌≢◌, inl, inr, List, [], ◌∷◌, true, ◌==◌, if◌then◌else◌, arith,
  some, none, subst, Bool-cases, ℕ_discrete,
}
use objective_9c.FileTree.{Store, Source, FileTree, tree_in, put_tree}
use objective_9c.FileTree.Mounts.{member, mounted_in, is_alive, alive_of}
use objective_9c.FileTree.Reaches.{IsAcyclic, Leads, direct, behind}
use objective_9c.FileTree.Acyclic.{Mounted, fewer-IsAcyclic, tree_in-put_self, tree_in-put_ne}
use objective_9c.FileTree.Apply.{mounted_in_of, mounted_in-put_ne}
use objective_9c.FileTree.Shown.{In}
use objective_9c.FileTree.Held.{Held, IsKept}
use objective_9c.FileTree.Found.{InUse}

abbrev pub AllAlive : Store → List Source → Type 0
AllAlive s [] = s.next_id ≡ s.next_id
AllAlive s (x ∷ xs) = (is_alive s x.tree ≡ true) × AllAlive s xs

abbrev pub Unique : List (ℕ × FileTree) → Type 0
Unique [] = 0 ≤ 0
Unique ((a, t) ∷ ts) = (tree_in ts a ≡ none) × Unique ts

-- No tree leads to itself through mounts; every mount is of a tree in use, every registered source is a
-- tree in use and alive, and every address stands for one tree.
pub record IsValid (s : Store) : Type 0 where
  pub acyclic : IsAcyclic s
  pub linked :
      (a : ℕ) (t : FileTree) → tree_in s.trees a ≡ some t → (m : ℕ) → Held m t.all → InUse s m
  pub alive : AllAlive s s.sources
  pub unique : Unique s.trees
  pub below : (a : ℕ) → s.next_tree ≤ a → tree_in s.trees a ≡ none

abbrev pub start : Store
start = record { trees = []; sources = []; next_id = 1; next_tree = 0 }

pub start-IsValid : IsValid start
unfolding mounted_in
start-IsValid = record {
  acyclic = λ a way. no_way a way;
  linked = λ a t h m k. cc;
  alive = refl;
  unique = omega arith;
  below = λ a h. refl;
}
  where
    no_way : (a : ℕ) {c : ℕ} → Leads start c a → ⊥
    no_way a (direct _ m) = cc
    no_way a (behind _ b m p) = cc

tree_in-put_none :
    (ts : List (ℕ × FileTree)) (a m : ℕ) (u : FileTree)
    → tree_in (put_tree ts a u) m ≡ none
    → tree_in ts m ≡ none
tree_in-put_none [] a m u h = refl
tree_in-put_none ((b, v) ∷ ts) a m u h = elim (Bool-cases (b == m)) [
  | inl here ↦ let clash : some (if b == a then u else v) ≡ none = rw here at h in cc
  | inr other ↦ simp other (tree_in-put_none ts a m u (rw other at h))
]

none-put_tree :
    (ts : List (ℕ × FileTree)) (a m : ℕ) (u : FileTree)
    → tree_in ts m ≡ none
    → tree_in (put_tree ts a u) m ≡ none
none-put_tree [] a m u h = refl
none-put_tree ((b, v) ∷ ts) a m u h = elim (Bool-cases (b == m)) [
  | inl here ↦ let clash : some v ≡ none = rw here at h in cc
  | inr other ↦ simp other (none-put_tree ts a m u (rw other at h))
]

Unique-put :
    (ts : List (ℕ × FileTree)) (a : ℕ) (u : FileTree) → Unique ts → Unique (put_tree ts a u)
Unique-put [] a u h = h
Unique-put ((b, v) ∷ ts) a u (h, k) = (none-put_tree ts a b u h, Unique-put ts a u k)

pub AllAlive-mono :
    (s s' : Store) (xs : List Source)
    → ((a : ℕ) → is_alive s a ≡ true → is_alive s' a ≡ true)
    → AllAlive s xs
    → AllAlive s' xs
AllAlive-mono s s' [] f h = refl
AllAlive-mono s s' (x ∷ xs) f (h, k) = (f x.tree h, AllAlive-mono s s' xs f k)

-- what a tree in use becomes, the others unchanged
module _ (s s' : Store) (a : ℕ) (t u : FileTree) (valid : IsValid s)
    (at_a : tree_in s.trees a ≡ some t) (trees : s'.trees ≡ put_tree s.trees a u)
    (next : s'.next_tree ≡ s.next_tree) where
  pub InUse-replaced : (m : ℕ) → InUse s m → InUse s' m
  InUse-replaced m used gone =
      used (tree_in-put_none s.trees a m u (subst (λ z. tree_in z m ≡ none) trees gone))

  at_a-replaced : tree_in s'.trees a ≡ some u
  at_a-replaced =
      subst (λ z. tree_in z a ≡ some u) (sym trees) (tree_in-put_self s.trees a t u at_a)

  elsewhere : (b : ℕ) → b ≢ a → tree_in s'.trees b ≡ tree_in s.trees b
  elsewhere b ne = ap (λ z. tree_in z b) trees ∙ tree_in-put_ne s.trees a b u ne

  pub replaced-IsValid :
      IsAcyclic s' → ((m : ℕ) → Held m u.all → InUse s m) → AllAlive s' s'.sources → IsValid s'
  replaced-IsValid acyclic held alive = record {
    acyclic = acyclic;
    linked = λ b v at_b m k. InUse-replaced m (linked_before b v at_b m k);
    alive = alive;
    unique = subst Unique (sym trees) (Unique-put s.trees a u valid.unique);
    below = λ b h.
        subst (λ z. tree_in z b ≡ none) (sym trees)
          (none-put_tree s.trees a b u (valid.below b (omega (arith, next))));
  }
    where
      linked_before :
          (b : ℕ) (v : FileTree) → tree_in s'.trees b ≡ some v → (m : ℕ) → Held m v.all → InUse s m
      linked_before b v at_b m k = elim (ℕ_discrete b a) [
        | yes e ↦
            let here : some u ≡ some v =
              sym at_a-replaced ∙ sym (ap (λ z. tree_in s'.trees z) e) ∙ at_b in
            let same : v.all ≡ u.all = cc in held m (subst (λ z. Held m z) same k)
        | no ne ↦ valid.linked b v (sym (elsewhere b ne) ∙ at_b) m k
      ]

  -- with fewer mounts
  pub fewer_mounts : ((b m : ℕ) → In b m u.all → In b m t.all) → IsAcyclic s'
  fewer_mounts shown = fewer-IsAcyclic s s' go valid.acyclic
    where
      go : (b c : ℕ) → Mounted s' b c → Mounted s b c
      go b c m = elim (ℕ_discrete b a) [
        | yes e ↦
            subst (λ z. Mounted s z c) (sym e)
              (subst (λ z. member c z ≡ true) (sym (mounted_in_of s a t at_a))
                (shown a c (
                  subst (λ z. member c z ≡ true) (mounted_in_of s' a u at_a-replaced)
                    (subst (λ z. Mounted s' z c) e m))))
        | no ne ↦ subst (λ z. member c z ≡ true) (mounted_in-put_ne s s' a b u trees ne) m
      ]

  pub alive-replaced : u.alive ≡ t.alive → (b : ℕ) → is_alive s b ≡ true → is_alive s' b ≡ true
  alive-replaced same b h = elim (ℕ_discrete b a) [
    | yes e ↦
        let before : t.alive ≡ true =
          sym (ap alive_of at_a) ∙ sym (ap (λ z. alive_of (tree_in s.trees z)) e) ∙ h in
        ap (λ z. alive_of (tree_in s'.trees z)) e ∙ ap alive_of at_a-replaced ∙ same ∙ before
    | no ne ↦ ap alive_of (elsewhere b ne) ∙ h
  ]

  pub kept-IsValid : s'.sources ≡ s.sources → IsKept t u → IsValid s'
  kept-IsValid sources kept =
      replaced-IsValid (fewer_mounts kept.shown) (λ m k. valid.linked a t at_a m (kept.held m k))
        (subst (AllAlive s') (sym sources)
          (AllAlive-mono s s' s.sources (alive-replaced kept.alive) valid.alive))

-- ===== src/FileTree/Acyclic.antt =====
-- The mounts of o9_filetree.c form no cycle: what o9_filetree_apply_specs does to the ways.
use objective_9c.Prelude.{
  ℕ, ◌≡◌, refl, ◌≢◌, ◌⊎◌, inl, inr, List, [], ◌∷◌, true, false, ◌==◌, arith, some, subst,
  Bool-cases, ℕ_discrete,
}
use objective_9c.FileTree.{Store, FileTree, tree_in, put_tree}
use objective_9c.FileTree.Mounts.{mounted_in, member}
use objective_9c.FileTree.Reaches.{Leads, direct, behind, IsAcyclic, join}

abbrev pub Mounted : Store → ℕ → ℕ → Type 0
Mounted s a b = member b (mounted_in [] s a) ≡ true

-- Two stores that differ in the mounts of tree `a` only, where each new mount is of a tree that does not
-- lead to `a`
module _ (s s' : Store) (a : ℕ) (same : (b : ℕ) → b ≢ a → mounted_in [] s' b ≡ mounted_in [] s b)
    (new : (m : ℕ) → Mounted s' a m → (Mounted s a m) ⊎ ((m ≢ a) × (Leads s a m → ⊥))) where
  old_mount : (b c : ℕ) → b ≢ a → Mounted s' b c → Mounted s b c
  old_mount b c ne m = subst (λ z. member c z ≡ true) (same b ne) m

  -- a way to `a` begins at `a`, or was there before
  leads_before : (c : ℕ) → Leads s' a c → (c ≡ a) ⊎ (Leads s a c)
  leads_before c (direct _ m) = elim (ℕ_discrete c a) [
    | yes e ↦ inl e
    | no ne ↦ inr (direct c (old_mount c a ne m))
  ]
  leads_before c (behind _ b m p) = elim (ℕ_discrete c a) [
    | yes e ↦ inl e
    | no ne ↦ elim (leads_before b p) [
      | inl e ↦ inr (direct c (subst (λ z. Mounted s c z) e (old_mount c b ne m)))
      | inr q ↦ inr (behind c b (old_mount c b ne m) q)
    ]
  ]

  module _ (acyclic : IsAcyclic s) where
    first_mount_closes : (b : ℕ) → Mounted s' a b → (b ≡ a) ⊎ (Leads s a b) → ⊥
    first_mount_closes b m back = elim (new b m) [
      | inl old ↦ elim back [
        | inl e ↦ acyclic a (direct a (subst (λ z. Mounted s a z) e old))
        | inr q ↦ acyclic a (behind a b old q)
      ]
      | inr (ne, no_way) ↦ elim back [ inl e ↦ ne e | inr q ↦ no_way q ]
    ]

    not_closed : (x : ℕ) → x ≡ a → Leads s' a x → ⊥
    not_closed x e (direct _ m) = first_mount_closes a (subst (λ z. Mounted s' z a) e m) (inl refl)
    not_closed x e (behind _ b m p) =
        first_mount_closes b (subst (λ z. Mounted s' z b) e m) (leads_before b p)

    -- a way was there before, or passes through `a`
    through : (c b : ℕ) → Leads s' c b → (Leads s c b) ⊎ (((b ≡ a) ⊎ (Leads s' a b)) × Leads s' c a)
    through c b (direct _ m) = elim (ℕ_discrete b a) [
      | yes e ↦ inr (inl e, subst (λ z. Leads s' c z) e (direct b m))
      | no ne ↦ inl (direct b (old_mount b c ne m))
    ]
    through c b (behind _ d m p) = elim (ℕ_discrete b a) [
      | yes e ↦ inr (inl e, subst (λ z. Leads s' c z) e (behind b d m p))
      | no ne ↦ elim (through c d p) [
        | inl q ↦ inl (behind b d (old_mount b d ne m) q)
        | inr (inl e, from) ↦ inr (inr (direct b (subst (λ z. Mounted s' b z) e m)), from)
        | inr (inr q, from) ↦ inr (inr (behind b d m q), from)
      ]
    ]

    pub changed-IsAcyclic : IsAcyclic s'
    changed-IsAcyclic x way = elim (through x x way) [
      | inl old ↦ acyclic x old
      | inr (inl e, from) ↦ not_closed a refl (subst (λ z. Leads s' z a) e from)
      | inr (inr back, from) ↦ not_closed a refl (join s' x a a from back)
    ]

-- A store with fewer mounts
pub fewer-IsAcyclic :
    (s s' : Store) → ((a b : ℕ) → Mounted s' a b → Mounted s a b) → IsAcyclic s → IsAcyclic s'
fewer-IsAcyclic s s' fewer acyclic x way = acyclic x (go x way)
  where
    go : (b : ℕ) → Leads s' x b → Leads s x b
    go b (direct _ m) = direct b (fewer b x m)
    go b (behind _ d m p) = behind b d (fewer b d m) (go d p)

pub tree_in-put_self :
    (ts : List (ℕ × FileTree)) (a : ℕ) (t u : FileTree)
    → tree_in ts a ≡ some t
    → tree_in (put_tree ts a u) a ≡ some u
tree_in-put_self [] a t u h = cc
tree_in-put_self ((b, v) ∷ ts) a t u h = elim (Bool-cases (b == a)) [
  | inl here ↦ simp here refl
  | inr other ↦
      let rest : tree_in ts a ≡ some t = rw other at h in
      simp other (tree_in-put_self ts a t u rest)
]

pub tree_in-put_ne :
    (ts : List (ℕ × FileTree)) (a b : ℕ) (u : FileTree)
    → b ≢ a
    → tree_in (put_tree ts a u) b ≡ tree_in ts b
tree_in-put_ne [] a b u ne = refl
tree_in-put_ne ((c, v) ∷ ts) a b u ne = elim (ℕ_discrete c a) [
  | yes here ↦
      let e : (c == a) ≡ true = ground arith in
      let e' : (c == b) ≡ false = ground arith in simp (e, e') (tree_in-put_ne ts a b u ne)
  | no other ↦ let e : (c == a) ≡ false = ground arith in rw (e, tree_in-put_ne ts a b u ne) refl
]

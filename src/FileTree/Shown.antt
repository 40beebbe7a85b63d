-- ===== src/FileTree/Shown.antt =====
-- The mounts that the entries of a tree show, and what o9_filetree_apply_specs of o9_filetree.c does to
-- them.
use objective_9c.Prelude.{
  ℕ, ◌≡◌, refl, ◌⊎◌, inl, inr, List, [], ◌∷◌, ◌++◌, true, false, ◌==◌, Bool-cases, if_ind,
}
use objective_9c.FileTree.{Entry, Mount, update}
use objective_9c.FileTree.Mounts.{Plan, mounted, member, plan_for, sources_of, commit, set_mounts}

-- members of appended lists
pub member-append :
    (m : ℕ) (xs ys : List ℕ)
    → member m (xs ++ ys) ≡ true
    → (member m xs ≡ true) ⊎ (member m ys ≡ true)
member-append m [] ys h = inr h
member-append m (x ∷ xs) ys h = elim (Bool-cases (x == m)) [
  | inl here ↦ inl (rw here refl)
  | inr other ↦ elim (member-append m xs ys (rw other at h)) [
    | inl l ↦ inl (rw (other, l) refl)
    | inr r ↦ inr r
  ]
]

pub member-append_left : (m : ℕ) (xs ys : List ℕ) → member m xs ≡ true → member m (xs ++ ys) ≡ true
member-append_left m [] ys h = cc
member-append_left m (x ∷ xs) ys h = elim (Bool-cases (x == m)) [
  | inl here ↦ rw here refl
  | inr other ↦
      let rest : member m xs ≡ true = rw other at h in
      rw (other, member-append_left m xs ys rest) refl
]

pub member-append_right : (m : ℕ) (xs ys : List ℕ) → member m ys ≡ true → member m (xs ++ ys) ≡ true
member-append_right m [] ys h = h
member-append_right m (x ∷ xs) ys h = elim (Bool-cases (x == m)) [
  | inl here ↦ rw here refl
  | inr other ↦ rw (other, member-append_right m xs ys h) refl
]

abbrev pub all_sources : List Plan → List ℕ
all_sources [] = []
all_sources (p ∷ ps) = sources_of p.mounts ++ all_sources ps

abbrev pub In : ℕ → ℕ → List Entry → Type 0
In a m es = member m (mounted [] a es) ≡ true

-- a mount of a list of entries is one of its first entry or of the others
pub In-cons :
    (a m : ℕ) (e : Entry) (es : List Entry)
    → In a m (e ∷ es)
    → ((e.removed ≡ false) × (member m (sources_of e.mounts) ≡ true)) ⊎ In a m es
unfolding mounted plan_for
In-cons a m e es h = elim (Bool-cases e.removed) [
  | inl gone ↦ inr (rw gone at h)
  | inr stays ↦ elim (member-append m (sources_of e.mounts) (mounted [] a es) (rw stays at h)) [
    | inl here ↦ inl (stays, here)
    | inr there ↦ inr there
  ]
]

pub In-here :
    (a m : ℕ) (e : Entry) (es : List Entry)
    → e.removed ≡ false
    → member m (sources_of e.mounts) ≡ true
    → In a m (e ∷ es)
unfolding mounted plan_for
In-here a m e es stays h =
    simp stays (member-append_left m (sources_of e.mounts) (mounted [] a es) h)

pub In-later : (a m : ℕ) (e : Entry) (es : List Entry) → In a m es → In a m (e ∷ es)
unfolding mounted plan_for
In-later a m e es h =
    if_ind (λ z. member m z ≡ true) e.removed _ _ (λ gone. h)
      (λ stays. member-append_right m (sources_of e.mounts) (mounted [] a es) h)

pub update_mounts :
    (a m : ℕ) (es : List Entry) (i : ℕ) (ms : List Mount)
    → In a m (update es i (set_mounts ms))
    → (In a m es) ⊎ (member m (sources_of ms) ≡ true)
update_mounts a m [] i ms h = inl h
update_mounts a m (e ∷ es) i ms h = elim (Bool-cases (e.id == i)) [
  | inl target ↦
      elim (In-cons a m (set_mounts ms e) (update es i (set_mounts ms)) (simp target at h)) [
        | inl (stays, here) ↦ inr here
        | inr there ↦ elim (update_mounts a m es i ms there) [
          | inl old ↦ inl (In-later a m e es old)
          | inr new ↦ inr new
        ]
      ]
  | inr other ↦ elim (In-cons a m e (update es i (set_mounts ms)) (simp other at h)) [
    | inl (stays, here) ↦ inl (In-here a m e es stays here)
    | inr there ↦ elim (update_mounts a m es i ms there) [
      | inl old ↦ inl (In-later a m e es old)
      | inr new ↦ inr new
    ]
  ]
]

-- Committing plans leaves the old mounts, or mounts of the plans.
pub commit_mounts :
    (a m : ℕ) (es : List Entry) (ps : List Plan)
    → In a m (commit es ps)
    → (In a m es) ⊎ (member m (all_sources ps) ≡ true)
unfolding commit
commit_mounts a m es [] h = inl h
commit_mounts a m es (p ∷ ps) h =
    elim (commit_mounts a m (update es p.target (set_mounts p.mounts)) ps h) [
      | inl before ↦ elim (update_mounts a m es p.target p.mounts before) [
        | inl old ↦ inl old
        | inr new ↦ inr (member-append_left m (sources_of p.mounts) (all_sources ps) new)
      ]
      | inr later ↦ inr (member-append_right m (sources_of p.mounts) (all_sources ps) later)
    ]

-- ===== src/FileTree/Planned.antt =====
-- The trees that the plans of o9_filetree_apply_specs mount: those of the old mounts, and those that
-- ft_resolve found.
use objective_9c.Prelude.{
  ℕ, ◌≡◌, refl, sym, ◌⊎◌, inl, inr, List, [], ◌∷◌, ◌++◌, Bool, true, false, ◌&&◌, ◌==◌, ltb, Option,
  some, none, subst, Bool-cases, if_ind, Bytes,
}
use mathlib.Core.List.{map-append}
use objective_9c.FileTree.{Store, Entry, FileTree, Mount, update}
use objective_9c.FileTree.Mounts.{
  Plan, Spec, member, sources_of, commit, set_mounts, mounts_of_all, target_of, resolve,
  resolve_from, with_mount, spec_mounts, plan_for, set_plan, planned, plan_spec, plan_specs,
}
use objective_9c.FileTree.Shown.{
  member-append, member-append_left, member-append_right, all_sources,
}
use objective_9c.FileTree.Held.{Held}
use objective_9c.FileTree.Reaches.{member-cons}
use objective_9c.FileTree.Found.{InUse, Of, Found, target-Of, resolve-Found}

-- every mount of a list is of a tree in use
abbrev AllInUse : Store → List ℕ → Type 0
AllInUse s bs = (m : ℕ) → member m bs ≡ true → InUse s m

append-AllInUse :
    (s : Store) (xs ys : List ℕ) → AllInUse s xs → AllInUse s ys → AllInUse s (xs ++ ys)
append-AllInUse s xs ys p q m h = elim (member-append m xs ys h) [ inl l ↦ p m l | inr r ↦ q m r ]

abbrev Mounts : Store → Option (List Mount) → Type 0
Mounts s none = s.next_id ≡ s.next_id
Mounts s (some ms) = AllInUse s (sources_of ms)

one-AllInUse : (s : Store) (b : ℕ) → InUse s b → AllInUse s (b ∷ [])
one-AllInUse s b u m h = elim (member-cons m b [] h) [
  | inl e ↦ subst (λ z. InUse s z) e u
  | inr later ↦ cc
]

with_mount-AllInUse :
    (s : Store) (ms : List Mount) (b mode : ℕ)
    → AllInUse s (sources_of ms)
    → InUse s b
    → AllInUse s (sources_of (with_mount ms (record { source = b; mode = mode })))
with_mount-AllInUse s ms b mode p u =
    let one = one-AllInUse s b u in
    if_ind (λ z. AllInUse s (sources_of z)) (mode == 0) (record { source = b; mode = mode } ∷ []) _
      (λ k. one)
      (λ k.
        if_ind (λ z. AllInUse s (sources_of z)) (mode == 1)
          (record { source = b; mode = mode } ∷ ms) _
          (λ j. append-AllInUse s (b ∷ []) (sources_of ms) one p)
          (λ j.
            subst (λ z. AllInUse s z)
              (sym (map-append (λ m. m.source) ms (record { source = b; mode = mode } ∷ [])))
              (append-AllInUse s (sources_of ms) (b ∷ []) p one)))

spec-Mounts :
    (s : Store) (x : Spec) (ms : List Mount)
    → AllInUse s (sources_of ms)
    → Mounts s (spec_mounts s x ms)
unfolding spec_mounts resolve
spec-Mounts s x ms p =
    if_ind (Mounts s) x.unmount (some []) _ (λ k m h. cc)
      (λ k. if_ind (Mounts s) (ltb 2 x.mode) none _ (λ j. refl) (λ j. named x.source))
  where
    found :
        (o : Option ℕ)
        → Found s o
        → Mounts s (elim o [
          | none ↦ none
          | some b ↦ some (with_mount ms (record { source = b; mode = x.mode }))
        ])
    found none h = refl
    found (some b) h = with_mount-AllInUse s ms b x.mode p h

    named :
        (o : Option Bytes)
        → Mounts s (elim o [
          | none ↦ none
          | some id ↦ elim (resolve_from s s.sources id) [
            | none ↦ none
            | some b ↦ some (with_mount ms (record { source = b; mode = x.mode }))
          ]
        ])
    named none = refl
    named (some id) = found (resolve_from s s.sources id) (resolve-Found s s.sources id)

-- all plans mount trees in use
abbrev pub PlansInUse : Store → List Plan → Type 0
PlansInUse s ps = AllInUse s (all_sources ps)

abbrev pub Planned : Store → Option (List Plan) → Type 0
Planned s none = s.next_id ≡ s.next_id
Planned s (some ps) = PlansInUse s ps

first-PlansInUse :
    (s : Store) (p : Plan) (ps : List Plan)
    → PlansInUse s (p ∷ ps)
    → AllInUse s (sources_of p.mounts)
first-PlansInUse s p ps h m k = h m (member-append_left m (sources_of p.mounts) (all_sources ps) k)

rest-PlansInUse : (s : Store) (p : Plan) (ps : List Plan) → PlansInUse s (p ∷ ps) → PlansInUse s ps
rest-PlansInUse s p ps h m k = h m (member-append_right m (sources_of p.mounts) (all_sources ps) k)

set_plan-PlansInUse :
    (s : Store) (ps : List Plan) (a i : ℕ) (ms : List Mount)
    → PlansInUse s ps
    → AllInUse s (sources_of ms)
    → PlansInUse s (set_plan ps a i ms)
set_plan-PlansInUse s [] a i ms h k = h
set_plan-PlansInUse s (p ∷ ps) a i ms h k =
    if_ind (PlansInUse s) (p.tree == a && p.target == i) _ _
      (λ here. append-AllInUse s (sources_of ms) (all_sources ps) k (rest-PlansInUse s p ps h))
      (λ other.
        append-AllInUse s (sources_of p.mounts) (all_sources (set_plan ps a i ms))
          (first-PlansInUse s p ps h)
          (set_plan-PlansInUse s ps a i ms (rest-PlansInUse s p ps h) k))

plan_for-Mounts :
    (s : Store) (ps : List Plan) (a i : ℕ) → PlansInUse s ps → Mounts s (plan_for ps a i)
unfolding plan_for
plan_for-Mounts s [] a i h = refl
plan_for-Mounts s (p ∷ ps) a i h =
    if_ind (Mounts s) (p.tree == a && p.target == i) (some p.mounts) _
      (λ here. first-PlansInUse s p ps h)
      (λ other. plan_for-Mounts s ps a i (rest-PlansInUse s p ps h))

planned-Planned :
    (s : Store) (ps : List Plan) (a i : ℕ) (o : Option (List Mount)) (known : Bool)
    → PlansInUse s ps
    → Mounts s o
    → Planned s (planned ps a i o known)
planned-Planned s ps a i none known h k = refl
planned-Planned s ps a i (some ms) true h k = set_plan-PlansInUse s ps a i ms h k
planned-Planned s ps a i (some ms) false h k =
    append-AllInUse s (sources_of ms) (all_sources ps) k h

module _ (s : Store) (a : ℕ) (t : FileTree) (held : (m : ℕ) → Held m t.all → InUse s m) where
  spec-Planned : (ps : List Plan) (x : Spec) → PlansInUse s ps → Planned s (plan_spec s a t ps x)
  unfolding plan_spec
  spec-Planned ps x h = entry (target_of t x.target) (target-Of t x.target)
    where
      known_plan :
          (e : Entry)
          → Of t (some e)
          → (o : Option (List Mount)) → Mounts s o
          → Planned s (elim o [
            | none ↦ planned ps a e.id (spec_mounts s x e.mounts) false
            | some ms ↦ planned ps a e.id (spec_mounts s x ms) true
          ])
      known_plan e of_t none k =
          planned-Planned s ps a e.id (spec_mounts s x e.mounts) false h
            (spec-Mounts s x e.mounts (λ m j. held m (of_t m j)))
      known_plan e of_t (some ms) k =
          planned-Planned s ps a e.id (spec_mounts s x ms) true h (spec-Mounts s x ms k)

      entry :
          (o : Option Entry)
          → Of t o
          → Planned s (elim o [
            | none ↦ none
            | some e ↦ elim (plan_for ps a e.id) [
              | none ↦ planned ps a e.id (spec_mounts s x e.mounts) false
              | some ms ↦ planned ps a e.id (spec_mounts s x ms) true
            ]
          ])
      entry none k = refl
      entry (some e) k = known_plan e k (plan_for ps a e.id) (plan_for-Mounts s ps a e.id h)

  pub specs-Planned :
      (ps : List Plan) (xs : List Spec) → PlansInUse s ps → Planned s (plan_specs s a t ps xs)
  unfolding plan_specs
  specs-Planned ps [] h = h
  specs-Planned ps (x ∷ xs) h =
      go (plan_spec s a t ps x) (spec-Planned ps x h) (λ qs k. specs-Planned qs xs k)
    where
      go :
          (o : Option (List Plan))
          → Planned s o
          → ((qs : List Plan) → PlansInUse s qs → Planned s (plan_specs s a t qs xs))
          → Planned s (elim o [ none ↦ none | some qs ↦ plan_specs s a t qs xs ])
      go none k later = refl
      go (some qs) k later = later qs k

-- Committing plans leaves the mounts that were held, or mounts of the plans.
update-Held :
    (m : ℕ) (es : List Entry) (i : ℕ) (ms : List Mount)
    → Held m (update es i (set_mounts ms))
    → (Held m es) ⊎ (member m (sources_of ms) ≡ true)
unfolding mounts_of_all
update-Held m [] i ms h = inl h
update-Held m (e ∷ es) i ms h = elim (Bool-cases (e.id == i)) [
  | inl target ↦
      elim (member-append m (sources_of ms) (mounts_of_all (update es i (set_mounts ms)))
        (simp target at h)) [
          | inl here ↦ inr here
          | inr there ↦ elim (update-Held m es i ms there) [
            | inl old ↦ inl (member-append_right m (sources_of e.mounts) (mounts_of_all es) old)
            | inr new ↦ inr new
          ]
        ]
  | inr other ↦
      elim (member-append m (sources_of e.mounts) (mounts_of_all (update es i (set_mounts ms)))
        (simp other at h)) [
          | inl here ↦ inl (member-append_left m (sources_of e.mounts) (mounts_of_all es) here)
          | inr there ↦ elim (update-Held m es i ms there) [
            | inl old ↦ inl (member-append_right m (sources_of e.mounts) (mounts_of_all es) old)
            | inr new ↦ inr new
          ]
        ]
]

pub commit-Held :
    (m : ℕ) (es : List Entry) (ps : List Plan)
    → Held m (commit es ps)
    → (Held m es) ⊎ (member m (all_sources ps) ≡ true)
unfolding commit
commit-Held m es [] h = inl h
commit-Held m es (p ∷ ps) h = elim (commit-Held m (update es p.target (set_mounts p.mounts)) ps h) [
  | inl before ↦ elim (update-Held m es p.target p.mounts before) [
    | inl old ↦ inl old
    | inr new ↦ inr (member-append_left m (sources_of p.mounts) (all_sources ps) new)
  ]
  | inr later ↦ inr (member-append_right m (sources_of p.mounts) (all_sources ps) later)
]

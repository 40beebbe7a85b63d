-- ===== src/FileTree/Apply.antt =====
-- o9_filetree_apply_specs of o9_filetree.c keeps the mounts free of cycles.
use objective_9c.Prelude.{
  ℕ, ◌≤◌, ◌≡◌, refl, sym, ap, ◌∙◌, ◌≢◌, inl, inr, List, [], ◌∷◌, Bool, true, false, ◌&&◌, ◌==◌,
  arith, Option, some, none, subst, if_ind,
}
use objective_9c.FileTree.{Store, FileTree, Mount, tree_in, put_tree, owned}
use objective_9c.FileTree.Mounts.{
  Plan, Spec, mounted_in, mounted_of, mounted, member, any_of, reaches, plan_for, set_plan, planned,
  plan_spec, plan_specs, spec_mounts, target_of, plans_reach, sources_of, commit,
  filetree_apply_specs, apply_to, apply_plans,
}
use objective_9c.FileTree.Reaches.{IsAcyclic, or_false, any_of-member, Apart, reaches_sound}
use objective_9c.FileTree.Acyclic.{changed-IsAcyclic, tree_in-put_self, tree_in-put_ne}
use objective_9c.FileTree.Shown.{member-append, all_sources, commit_mounts}

-- every plan is for an entry of tree `a`
abbrev pub AllFor : ℕ → List Plan → Type 0
AllFor a [] = 0 ≤ a
AllFor a (p ∷ ps) = (p.tree ≡ a) × AllFor a ps

set_plan-AllFor :
    (ps : List Plan) (a i : ℕ) (ms : List Mount) → AllFor a ps → AllFor a (set_plan ps a i ms)
set_plan-AllFor [] a i ms h = h
set_plan-AllFor (p ∷ ps) a i ms (e, h) =
    if_ind (AllFor a) (p.tree == a && p.target == i) _ _ (λ k. (e, h))
      (λ k. (e, set_plan-AllFor ps a i ms h))

-- what holds of the plans of a spec, if there are any
abbrev Ok : ℕ → Option (List Plan) → Type 0
Ok a none = 0 ≤ a
Ok a (some qs) = AllFor a qs

planned-Ok :
    (ps : List Plan) (a i : ℕ) (o : Option (List Mount)) (known : Bool)
    → AllFor a ps
    → Ok a (planned ps a i o known)
planned-Ok ps a i none known h = omega arith
planned-Ok ps a i (some ms) true h = set_plan-AllFor ps a i ms h
planned-Ok ps a i (some ms) false h = (refl, h)

spec-Ok :
    (s : Store) (a : ℕ) (t : FileTree) (ps : List Plan) (x : Spec)
    → AllFor a ps
    → Ok a (plan_spec s a t ps x)
unfolding plan_spec
spec-Ok s a t ps x h =
    elim (target_of t x.target)
      as (λ o. Ok a (elim o [
        | none ↦ none
        | some e ↦ elim (plan_for ps a e.id) [
          | none ↦ planned ps a e.id (spec_mounts s x e.mounts) false
          | some ms ↦ planned ps a e.id (spec_mounts s x ms) true
        ]
      ])) [
        | none ↦ omega arith
        | some e ↦
            elim (plan_for ps a e.id)
              as (λ o. Ok a (elim o [
                | none ↦ planned ps a e.id (spec_mounts s x e.mounts) false
                | some ms ↦ planned ps a e.id (spec_mounts s x ms) true
              ])) [
                | none ↦ planned-Ok ps a e.id (spec_mounts s x e.mounts) false h
                | some ms ↦ planned-Ok ps a e.id (spec_mounts s x ms) true h
              ]
      ]

specs-Ok :
    (s : Store) (a : ℕ) (t : FileTree) (ps : List Plan) (xs : List Spec)
    → AllFor a ps
    → Ok a (plan_specs s a t ps xs)
unfolding plan_specs
specs-Ok s a t ps [] h = h
specs-Ok s a t ps (x ∷ xs) h =
    go (plan_spec s a t ps x) (spec-Ok s a t ps x h) (λ qs k. specs-Ok s a t qs xs k)
  where
    go :
        (o : Option (List Plan))
        → Ok a o
        → ((qs : List Plan) → AllFor a qs → Ok a (plan_specs s a t qs xs))
        → Ok a (elim o [ none ↦ none | some qs ↦ plan_specs s a t qs xs ])
    go none k later = omega arith
    go (some qs) k later = later qs k

AllFor-Apart : (ps : List Plan) (a b : ℕ) → AllFor a ps → b ≢ a → Apart ps b
unfolding plan_for
AllFor-Apart [] a b h ne i = refl
AllFor-Apart (p ∷ ps) a b (e, h) ne i =
    let miss : (p.tree == b) ≡ false = ground arith in simp miss (AllFor-Apart ps a b h ne i)

plans_unreached :
    (s : Store) (goal : ℕ) (ps qs : List Plan) (m : ℕ)
    → plans_reach s goal ps qs ≡ false
    → member m (all_sources qs) ≡ true
    → reaches 256 s goal ps [] m ≡ false
unfolding plans_reach
plans_unreached s goal ps [] m h k = cc
plans_unreached s goal ps (q ∷ qs) m h k =
    let f : ℕ → Bool = λ b. reaches 256 s goal ps [] b in
    let (here, later) = or_false (any_of f (sources_of q.mounts)) (plans_reach s goal ps qs) h in
    elim (member-append m (sources_of q.mounts) (all_sources qs) k) [
      | inl l ↦ any_of-member f (sources_of q.mounts) m l here
      | inr r ↦ plans_unreached s goal ps qs m later r
    ]

-- the store that o9_filetree_apply_specs leaves
abbrev pub applied : Store → ℕ → FileTree → List Plan → Store
applied s a t ps = record s { trees = put_tree s.trees a (record t { all = commit t.all ps }) }

pub mounted_in_of :
    (s : Store) (a : ℕ) (t : FileTree)
    → tree_in s.trees a ≡ some t
    → mounted_in [] s a ≡ mounted [] a t.all
unfolding mounted_in
mounted_in_of s a t h = ap (mounted_of [] a) h

pub mounted_in-put_ne :
    (s s' : Store) (a b : ℕ) (t : FileTree)
    → s'.trees ≡ put_tree s.trees a t
    → b ≢ a
    → mounted_in [] s' b ≡ mounted_in [] s b
unfolding mounted_in
mounted_in-put_ne s s' a b t e ne =
    ap (mounted_of [] b) (ap (λ ts. tree_in ts b) e ∙ tree_in-put_ne s.trees a b t ne)

applied-IsAcyclic :
    (s : Store) (a : ℕ) (t : FileTree) (ps : List Plan)
    → tree_in s.trees a ≡ some t
    → AllFor a ps
    → plans_reach s a ps ps ≡ false
    → IsAcyclic s
    → IsAcyclic (applied s a t ps)
applied-IsAcyclic s a t ps at_a for_a unreached acyclic =
    changed-IsAcyclic s (applied s a t ps) a
      (λ b ne.
        mounted_in-put_ne s (applied s a t ps) a b (record t { all = commit t.all ps }) refl ne)
      (λ m k. elim (commit_mounts a m t.all ps (subst (λ z. member m z ≡ true) now k)) [
        | inl old ↦ inl (subst (λ z. member m z ≡ true) (sym (mounted_in_of s a t at_a)) old)
        | inr new ↦ inr (
            reaches_sound 256 s a ps [] m acyclic (λ b ne. AllFor-Apart ps a b for_a ne)
              (λ b seen. cc) (plans_unreached s a ps ps m unreached new))
      ])
      acyclic
  where
    now : mounted_in [] (applied s a t ps) a ≡ mounted [] a (commit t.all ps)
    now =
        mounted_in_of (applied s a t ps) a (record t { all = commit t.all ps })
          (tree_in-put_self s.trees a t (record t { all = commit t.all ps }) at_a)

plans-IsAcyclic :
    (s : Store) (a : ℕ) (t : FileTree) (o : Option (List Plan))
    → tree_in s.trees a ≡ some t
    → Ok a o
    → IsAcyclic s
    → IsAcyclic (apply_plans s a t o).0
unfolding apply_plans
plans-IsAcyclic s a t none at_a k acyclic = acyclic
plans-IsAcyclic s a t (some ps) at_a k acyclic =
    if_ind {A = Store × Bool} (λ r. IsAcyclic r.0) (plans_reach s a ps ps) (s, false)
      (applied s a t ps, true) (λ reached. acyclic)
      (λ unreached. applied-IsAcyclic s a t ps at_a k unreached acyclic)

to-IsAcyclic :
    (self : ℕ) (s : Store) (a : ℕ) (xs : List Spec) (o : Option FileTree)
    → tree_in s.trees a ≡ o
    → IsAcyclic s
    → IsAcyclic (apply_to self s a xs o).0
unfolding apply_to
to-IsAcyclic self s a xs none e acyclic = acyclic
to-IsAcyclic self s a xs (some t) e acyclic =
    if_ind {A = Store × Bool} (λ r. IsAcyclic r.0) (owned self t)
      (apply_plans s a t (plan_specs s a t [] xs)) (s, false)
      (λ own.
        plans-IsAcyclic s a t (plan_specs s a t [] xs) e (specs-Ok s a t [] xs (omega arith))
          acyclic)
      (λ other. acyclic)

-- Applying mount specs, whether it succeeds or fails, never makes a cycle of mounts: where no tree led
-- to itself through mounts before, none does after.
pub apply_specs-IsAcyclic :
    (self : ℕ) (s : Store) (a : ℕ) (xs : List Spec)
    → IsAcyclic s
    → IsAcyclic (filetree_apply_specs self s a xs).0
unfolding filetree_apply_specs
apply_specs-IsAcyclic self s a xs acyclic =
    to-IsAcyclic self s a xs (tree_in s.trees a) refl acyclic

-- ===== src/Dag/Acyclic.antt =====
-- Cycles among waiting actors, and what one more edge does to them.
use objective_9c.Prelude.{ℕ, ◌≡◌, ◌≢◌, ◌⊎◌, inl, inr, [], ◌∷◌, ◌++◌, arith, sym, ◌∙◌, subst}
use objective_9c.Prelude.Count.{count-append}
use objective_9c.Dag.{Edge, Edges}
use objective_9c.Dag.Walk.{HasEdge, joins, WaitsFor, one, more, WaitsFor-append}

-- no actor waits for itself, at any distance
abbrev pub IsAcyclic : Edges → Type 0
IsAcyclic es = (a : ℕ) → ¬ WaitsFor es a a

pub WaitsFor-mono :
    {es fs : Edges} {a b : ℕ}
    → ((x y : ℕ) → HasEdge es x y → HasEdge fs x y)
    → WaitsFor es a b
    → WaitsFor fs a b
WaitsFor-mono sub (one {a} {b} h) = one (sub a b h)
WaitsFor-mono sub (more {a} {b} h p) = more (sub a b h) (WaitsFor-mono sub p)

pub IsAcyclic-mono :
    {es fs : Edges} → ((x y : ℕ) → HasEdge es x y → HasEdge fs x y) → IsAcyclic fs → IsAcyclic es
IsAcyclic-mono sub h a p = h a (WaitsFor-mono sub p)

module _ (es : Edges) (e : Edge) where
  pub HasEdge-append : (x y : ℕ) → HasEdge es x y → HasEdge (es ++ e ∷ []) x y
  HasEdge-append x y h = omega (arith, count-append (joins x y) es (e ∷ []))

  pub HasEdge-last : HasEdge (es ++ e ∷ []) e.caller e.callee
  HasEdge-last = ground (arith, count-append (joins e.caller e.callee) es (e ∷ []))

  HasEdge-split :
      (x y : ℕ) → HasEdge (es ++ e ∷ []) x y → HasEdge es x y ⊎ ((e.caller ≡ x) × (e.callee ≡ y))
  HasEdge-split x y h = ground (arith, count-append (joins x y) es (e ∷ []))

  -- `x` is, or waits for, the new edge's start; its end is, or waits for, `y`
  abbrev Through : ℕ → ℕ → Type 0
  Through x y =
      ((x ≡ e.caller) ⊎ WaitsFor es x e.caller) × ((e.callee ≡ y) ⊎ WaitsFor es e.callee y)

  Through-step : {x z y : ℕ} → HasEdge es x z → Through z y → Through x y
  Through-step h (inl p, r) = (inr (one (rw p at h)), r)
  Through-step h (inr p, r) = (inr (more h p), r)

  WaitsFor-split : {x y : ℕ} → WaitsFor (es ++ e ∷ []) x y → WaitsFor es x y ⊎ Through x y
  WaitsFor-split (one {a} {b} h) = elim (HasEdge-split a b h) [
    | inl old ↦ inl (one old)
    | inr (p, q) ↦ inr (inl (sym p), inl q)
  ]
  WaitsFor-split (more {a} {b} {c} h p) = elim (HasEdge-split a b h) [
    | inl old ↦ elim (WaitsFor-split p) [
      | inl rest ↦ inl (more old rest)
      | inr t ↦ inr (Through-step old t)
    ]
    | inr (u, v) ↦ elim (WaitsFor-split p) [
      | inl rest ↦ inr (inl (sym u), inr (rw (← v) at rest))
      | inr (_, r) ↦ inr (inl (sym u), r)
    ]
  ]

  -- A new edge closes a cycle only if it is a loop or its end waits for its start already.
  pub IsAcyclic-append :
      IsAcyclic es
      → e.caller ≢ e.callee
      → ¬ WaitsFor es e.callee e.caller
      → IsAcyclic (es ++ e ∷ [])
  IsAcyclic-append h ne none_back a p = elim (WaitsFor-split p) [
    | inl old ↦ h a old
    | inr (inl s, inl t) ↦ ne (sym s ∙ sym t)
    | inr (inl s, inr t) ↦ none_back (rw s at t)
    | inr (inr s, inl t) ↦ none_back (rw (← t) at s)
    | inr (inr s, inr t) ↦ none_back (WaitsFor-append t s)
  ]

  pub not-IsAcyclic-append :
      ((e.callee ≡ e.caller) ⊎ WaitsFor es e.callee e.caller) → ¬ IsAcyclic (es ++ e ∷ [])
  not-IsAcyclic-append (inl s) h =
      h e.caller (subst (λ x. WaitsFor (es ++ e ∷ []) e.caller x) s (one HasEdge-last))
  not-IsAcyclic-append (inr p) h = h e.caller (more HasEdge-last (WaitsFor-mono HasEdge-append p))

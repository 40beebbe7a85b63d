-- ===== src/Dag/Begin.antt =====
-- `o9_dag_call_begin` refuses a call exactly when waiting for it would close a cycle.
use objective_9c.Prelude.{
  ℕ, ◌≤◌, ◌<◌, ◌≡◌, ◌≢◌, ◌↔◌, ◌⊎◌, inl, inr, [], ◌∷◌, ◌++◌, Option, true, false, arith, Bool-cases,
  ◌==◌, Bytes, length, length-append, none, sym, ℕ_discrete,
}
use objective_9c.Prelude.Libc.{Libc}
use objective_9c.Prelude.Count.{count-append}
use objective_9c.Actor.{ProcCtx}
use objective_9c.Dag.{Edge, Edges, max_call_edges, new_edge, call_begin}
use objective_9c.Dag.Walk.{WaitsFor, Single, calls_of, path_exists_lem}
use objective_9c.Dag.Acyclic.{IsAcyclic, IsAcyclic-append, not-IsAcyclic-append}

pub record IsValid (es : Edges) : Type 0 where
  pub single : Single es
  pub acyclic : IsAcyclic es
  pub bounded : length es ≤ max_call_edges

module _ (c : Libc) (ctx : ProcCtx) (es : Edges) (callee : ℕ) (oid method : Option Bytes) where
  abbrev edge : Edge
  edge = new_edge c ctx callee oid method

  -- The verdict between two actors: refused for a call to itself or along a path back.
  verdict :
      callee ≢ 0
      → ctx.actor_chan ≢ 0
      → Single es
      → ((call_begin c ctx es callee oid method).0 ≡ false)
        ↔ ((ctx.actor_chan ≡ callee) ⊎ WaitsFor es callee ctx.actor_chan)
  unfolding call_begin
  verdict hb ha s = elim (ℕ_discrete ctx.actor_chan callee) [
    | yes e ↦ (λ _. inl e, λ _. ground arith)
    | no ne ↦
        let exact = path_exists_lem es callee ctx.actor_chan s hb ha in
        (
          λ p.
              inr (elim (exact.0 (ground arith)) [ inl e ↦ absurd (ne (sym e)) | inr path ↦ path ]),
          λ q. elim q [
            | inl e ↦ absurd (ne e)
            | inr path ↦ let found = exact.1 (inr path) in ground arith
          ],
        )
  ]

  granted-apart :
      callee ≢ 0
      → ctx.actor_chan ≢ 0
      → Single es
      → (call_begin c ctx es callee oid method).0 ≡ true
      → (ctx.actor_chan ≢ callee) × ¬ WaitsFor es callee ctx.actor_chan
  granted-apart hb ha s granted =
      let refuse = (verdict hb ha s).1 in (λ e. cc (refuse (inl e)), λ path. cc (refuse (inr path)))

  -- `o9_dag_call_begin` on a valid table refuses a call between two actors exactly when recording it would let some
  -- actor wait for itself.
  pub call_begin_exact :
      callee ≢ 0
      → ctx.actor_chan ≢ 0
      → IsValid es
      → ((call_begin c ctx es callee oid method).0 ≡ false) ↔ ¬ IsAcyclic (es ++ edge ∷ [])
  unfolding new_edge
  call_begin_exact hb ha v = (
    λ p. elim ((verdict hb ha v.single).0 p) [
      | inl e ↦ not-IsAcyclic-append es edge (inl (sym e))
      | inr path ↦ not-IsAcyclic-append es edge (inr path)
    ],
    λ cyclic. elim (Bool-cases (call_begin c ctx es callee oid method).0) [
      | inr p ↦ p
      | inl granted ↦
          let (ne, apart) = granted-apart hb ha v.single granted in
          absurd (cyclic (IsAcyclic-append es edge v.acyclic ne apart))
    ],
  )

  -- A refused call records nothing and leaves an error for the caller; a granted one leaves the
  -- caller's context alone, and adds no edge but its own.
  pub call_begin_frame :
      let (granted, ctx', es') = call_begin c ctx es callee oid method in
      ((granted ≡ false) × (es' ≡ es) × (ctx'.err ≢ none))
      ⊎ ((granted ≡ true) × (ctx' ≡ ctx) × ((es' ≡ es) ⊎ (es' ≡ es ++ edge ∷ [])))
  unfolding call_begin
  call_begin_frame = ground arith

  -- An edge is recorded only between two actors, when the call is granted and there is room.
  recorded :
      let (granted, _, es') = call_begin c ctx es callee oid method in
      (es' ≡ es)
      ⊎ ((es' ≡ es ++ edge ∷ [])
          × (length es < max_call_edges)
          × (callee ≢ 0)
          × (ctx.actor_chan ≢ 0)
          × (granted ≡ true))
  unfolding call_begin
  recorded = ground arith

  Single-append : calls_of ctx.actor_chan es ≡ 0 → Single es → Single (es ++ edge ∷ [])
  unfolding new_edge
  Single-append idle s a = elim (ℕ_discrete ctx.actor_chan a) [
    | yes e ↦
        let none_yet : calls_of a es ≡ 0 = rw (← e) idle in
        ground (arith, count-append (λ (x : Edge). x.caller == a) es (edge ∷ []))
    | no ne ↦ ground (arith, count-append (λ (x : Edge). x.caller == a) es (edge ∷ []), s a)
  ]

  -- An actor that waits for nothing may call: a valid table stays free of cycles, within its bound, and
  -- with one call for each caller at most.
  pub call_begin-IsValid :
      calls_of ctx.actor_chan es ≡ 0
      → IsValid es
      → IsValid (call_begin c ctx es callee oid method).2
  unfolding new_edge
  call_begin-IsValid idle v = elim recorded [
    | inl same ↦ rw same v
    | inr (grown, room, hb, ha, granted) ↦
        let (ne, apart) = granted-apart hb ha v.single granted in
        rw grown (record {
          single = Single-append idle v.single;
          acyclic = IsAcyclic-append es edge v.acyclic ne apart;
          bounded = omega (arith, length-append es (edge ∷ []));
        })
  ]

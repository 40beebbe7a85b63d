-- ===== src/Dag/Exit.antt =====
-- What `o9_dag_call_end` and `o9_dag_actor_exit` take out of the table, and what they leave.
use objective_9c.Prelude.{
  ℕ, zero, suc, ◌+◌, ◌-◌, ◌≤◌, ◌<◌, ◌≡◌, refl, ◌≢◌, inl, inr, List, [], ◌∷◌, some, none, true,
  false, not, ◌&&◌, ◌==◌, arith, Bool, Bool-cases, Option-cases, length, get_elem?, take, take_all,
  ℕ_discrete,
}
use objective_9c.Prelude.Count.{
  ind, count, remove_at, count-remove_at, length-remove_at, count-pos_of_get, take-remove_at,
  count-take_suc, length-le_of_none,
}
use objective_9c.Actor.{ProcCtx, ActorTid}
use objective_9c.Dag.{Edge, Edges, find_edge, call_end, touches, purge, actor_exit}
use objective_9c.Dag.Walk.{joins, calls_of, Single}
use objective_9c.Dag.Acyclic.{IsAcyclic-mono}
use objective_9c.Dag.Begin.{IsValid}

-- The table `fs` is `es` without the edges that pass the test `q`: of all others it holds as many.
abbrev pub Removes : (Edge → Bool) → Edges → Edges → Type 0
Removes q es fs = (p : Edge → Bool) → count p fs ≡ count (λ e. p e && not (q e)) es

count-and_le : (p q : Edge → Bool) (es : Edges) → count (λ e. p e && not (q e)) es ≤ count p es
count-and_le p q [] = omega arith
count-and_le p q (e ∷ es) = ground (arith, count-and_le p q es)

count-all : (es : Edges) → count (λ _. true) es ≡ length es
count-all [] = refl
count-all (e ∷ es) = omega (arith, count-all es)

-- A table stays valid when edges are removed.
pub Removes-IsValid : (q : Edge → Bool) (es fs : Edges) → Removes q es fs → IsValid es → IsValid fs
Removes-IsValid q es fs r v = record {
  single = λ a.
      omega (arith, r (λ e. e.caller == a), v.single a, count-and_le (λ e. e.caller == a) q es);
  acyclic =
      IsAcyclic-mono (λ x y h. omega (arith, r (joins x y), count-and_le (joins x y) q es))
        v.acyclic;
  bounded =
      omega (
        arith,
        r (λ _. true),
        count-and_le (λ _. true) q es,
        count-all es,
        count-all fs,
        v.bounded,
      );
}

count-none :
    (p q : Edge → Bool) (es : Edges)
    → count q es ≡ 0
    → count p es ≡ count (λ e. p e && not (q e)) es
count-none p q [] h = refl
count-none p q (e ∷ es) h = ground (arith, count-none p q es)

-- the edge at `i` passes the test `q`, and is the only one
count-only :
    (p q : Edge → Bool) (es : Edges) (i : ℕ) (x : Edge)
    → get_elem? es i ≡ some x
    → q x ≡ true
    → count q es ≤ 1
    → count p es ≡ count (λ e. p e && not (q e)) es + ind (p x)
count-only p q [] i x h t s = cc
count-only p q (e ∷ es) zero x h t s =
    let same : e ≡ x = cc in rw same (ground (arith, count-none p q es))
count-only p q (e ∷ es) (suc i) x h t s =
    let others : 0 < count q es = count-pos_of_get q es i x h t in
    ground (arith, count-only p q es i x h t)

find_edge-none : (es : Edges) (a b i : ℕ) → find_edge es i a b ≡ none → count (joins a b) es ≡ 0
unfolding find_edge
find_edge-none [] a b i h = refl
find_edge-none (e ∷ es) a b i h = ground (arith, find_edge-none es a b (i + 1))

find_edge-ge : (es : Edges) (i a b k : ℕ) → find_edge es i a b ≡ some k → i ≤ k
unfolding find_edge
find_edge-ge [] i a b k h = cc
find_edge-ge (e ∷ es) i a b k h = ground (arith, find_edge-ge es (i + 1) a b k)

find_edge-get :
    (es : Edges) (i a b k : ℕ)
    → find_edge es i a b ≡ some k
    → (e : Edge) × (get_elem? es (k - i) ≡ some e) × (joins a b e ≡ true)
unfolding find_edge
find_edge-get [] i a b k h = cc
find_edge-get (e ∷ es) i a b k h = elim (Bool-cases (joins a b e)) [
  | inl hit ↦ let same : k - i ≡ 0 = ground arith in (e, rw same refl, hit)
  | inr miss ↦
      let rest : find_edge es (i + 1) a b ≡ some k = ground arith in
      let (f, at_f, hit) = find_edge-get es (i + 1) a b k rest in
      let step : k - i ≡ suc (k - (i + 1)) = omega (arith, find_edge-ge es (i + 1) a b k rest) in
      (f, rw step at_f, hit)
]

joins-le_calls : (es : Edges) (a b : ℕ) → count (joins a b) es ≤ calls_of a es
joins-le_calls [] a b = omega arith
joins-le_calls (e ∷ es) a b = ground (arith, joins-le_calls es a b)

-- `o9_dag_call_end` takes exactly the edge of the finished call out of the table, if one was
-- recorded, whatever place it has, in a table in which every caller stands once at
-- most, for channels that are not nil.
pub call_end_lem :
    (ctx : ProcCtx) (es : Edges) (callee : ℕ)
    → callee ≢ 0
    → ctx.actor_chan ≢ 0
    → Single es
    → Removes (joins ctx.actor_chan callee) es (call_end ctx es callee)
unfolding call_end
call_end_lem ctx es callee hb ha s p =
    let a = ctx.actor_chan in
    elim (Option-cases (find_edge es 0 a callee)) [
      | inl e ↦ ground (arith, count-none p (joins a callee) es, find_edge-none es a callee 0 e)
      | inr (k, e) ↦
          let (x, at_x, hit) = find_edge-get es 0 a callee k e in
          let here : get_elem? es k ≡ some x = let z : k - 0 ≡ k = omega arith in rw z at at_x in
          let unique : count (joins a callee) es ≤ 1 =
            omega (arith, joins-le_calls es a callee, s a) in
          ground (
            arith,
            count-remove_at p es k x here,
            count-only p (joins a callee) es k x here hit unique,
          )
    ]

-- One element that fails the test can be skipped, and one that passes it is replaced by the last.
purge_lem :
    (rounds : ℕ) (es : Edges) (i chan : ℕ)
    → length es ≤ rounds + i
    → count (touches chan) (take i es) ≡ 0
    → Removes (touches chan) es (purge rounds es i chan)
unfolding purge
purge_lem zero es i chan h before p =
    let whole : count (touches chan) es ≡ 0 = rw (take_all i es (omega arith)) at before in
    count-none p (touches chan) es whole
purge_lem (suc rounds) es i chan h before p = elim (Option-cases (get_elem? es i)) [
  | inl e ↦
      let whole = rw (take_all i es (length-le_of_none es i e)) at before in
      rw (e, purge) (count-none p (touches chan) es whole)
  | inr (x, e) ↦ elim (Bool-cases (touches chan x)) [
    | inl hit ↦
        let less = length-remove_at es i x e in
        let ih =
          purge_lem rounds (remove_at es i) i chan (omega arith)
            (rw (take-remove_at es i x e) before) p in
        rw (e, purge, hit)
          (ground (arith, ih, count-remove_at (λ y. p y && not (touches chan y)) es i x e))
    | inr miss ↦
        rw (e, purge, miss)
          (purge_lem rounds es (i + 1) chan (omega arith)
            (rw (count-take_suc (touches chan) es i x e, before, miss) refl) p)
  ]
]

-- `o9_dag_actor_exit` takes exactly the edges that lead from or to the actor, whose
-- channel is not nil, out of the table.
pub actor_exit_lem :
    (es : Edges) (tids : List ActorTid) (chan : ℕ)
    → chan ≢ 0
    → Removes (touches chan) es (actor_exit es tids chan).0
unfolding actor_exit
actor_exit_lem es tids chan h p =
    let z : (chan == 0) ≡ false = ground arith in
    rw z (purge_lem (length es) es 0 chan (omega arith) refl p)

pub call_end-IsValid :
    (ctx : ProcCtx) (es : Edges) (callee : ℕ) → IsValid es → IsValid (call_end ctx es callee)
call_end-IsValid ctx es callee v = elim (ℕ_discrete callee 0) [
  | yes e ↦ unfold call_end in rw e v
  | no hb ↦ elim (ℕ_discrete ctx.actor_chan 0) [
    | yes e ↦ let same : call_end ctx es callee ≡ es = unfold call_end in ground arith in rw same v
    | no ha ↦
        Removes-IsValid (joins ctx.actor_chan callee) es (call_end ctx es callee)
          (call_end_lem ctx es callee hb ha v.single) v
  ]
]

pub actor_exit-IsValid :
    (es : Edges) (tids : List ActorTid) (chan : ℕ)
    → IsValid es
    → IsValid (actor_exit es tids chan).0
actor_exit-IsValid es tids chan v = elim (ℕ_discrete chan 0) [
  | yes e ↦ unfold actor_exit in rw e v
  | no h ↦
      Removes-IsValid (touches chan) es (actor_exit es tids chan).0 (actor_exit_lem es tids chan h)
        v
]

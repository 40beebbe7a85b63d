-- ===== src/Dag.antt =====
-- The wait-for graph of synchronous actor calls in o9_runtime.c: O9CallEdge, o9_path_exists_locked,
-- o9_dag_call_begin, o9_dag_call_end, o9_dag_actor_exit, o9_dag_waiting_for. Each function holds
-- o9_dag_lock while it touches the table, so a call is one atomic step. A dispatch channel is a
-- number, nil is 0; the used part of o9_call_edges is a list of at most `max_call_edges` edges.
pub mod Walk
pub mod Acyclic
pub mod Begin
pub mod Exit
pub mod System
pub mod Tests
use objective_9c.Prelude.{
  ℕ, zero, suc, ◌+◌, ◌-◌, ◌<◌, List, [], ◌∷◌, ◌++◌, Option, some, none, Bool, true, false, ◌&&◌,
  ◌||◌, ◌==◌, ltb, if◌then◌else◌, Bytes, codes, length, get_elem?,
}
use objective_9c.Prelude.Count.{remove_at}
use objective_9c.Prelude.Libc.{Libc}
use objective_9c.Actor.{ProcCtx, ActorTid, actor_tid_remove}

-- O9_MAX_CALL_EDGES
abbrev pub max_call_edges : ℕ
max_call_edges = 1024

-- `O9CallEdge`
pub record Edge : Type 0 where
  pub caller : ℕ
  pub callee : ℕ
  pub caller_oid : Bytes
  pub callee_oid : Bytes
  pub method : Bytes

abbrev pub Edges : Type 0
Edges = List Edge

-- the inner loop of `o9_path_exists_locked`: the callee of the first edge out of `curr`
unfoldable pub first_callee : Edges → ℕ → Option ℕ
first_callee [] curr = none
first_callee (e ∷ es) curr = if e.caller == curr then some e.callee else first_callee es curr

-- the outer loop, with the hops that are left
unfoldable pub follow : ℕ → Edges → ℕ → ℕ → Bool
follow zero es curr target = false
follow (suc hops) es curr target = elim (first_callee es curr) [
  | none ↦ false
  | some next ↦ let rest = follow hops es next target in if next == target then true else rest
]

unfoldable pub path_exists : Edges → ℕ → ℕ → Bool
path_exists es start target =
    if start == 0 || target == 0
    then false
    else if start == target
    then true
    else follow (length es) es start target

-- the text of the method in an error message: `pre` method "()"
call_text : Bytes → Option Bytes → Bytes
call_text pre none = []
call_text pre (some m) = pre ++ (m ++ codes "()")

module _ (c : Libc) where
  -- The error text goes to `ctx->errbuf`, which `ctx->err` then shows, and to werrstr.
  report : ProcCtx → Bytes → ProcCtx
  report ctx text =
      let err = c.snprint 192 text in record ctx { err = some (c.snprint 192 err); werrstr = err }

  -- the edge that `o9_dag_call_begin` records
  unfoldable pub new_edge : ProcCtx → ℕ → Option Bytes → Option Bytes → Edge
  new_edge ctx callee_chan callee_oid method = record {
    caller = ctx.actor_chan;
    callee = callee_chan;
    caller_oid = elim ctx.actor_oid [
      | [] ↦ c.snprint 64 (c.pointer_text ctx.actor_chan)
      | b ∷ bs ↦ c.snprint 64 (b ∷ bs)
    ];
    callee_oid = elim callee_oid [
      | some (b ∷ bs) ↦ c.snprint 64 (b ∷ bs)
      | some [] ↦ c.snprint 64 (c.pointer_text callee_chan)
      | none ↦ c.snprint 64 (c.pointer_text callee_chan)
    ];
    method = elim method [ some m ↦ c.snprint 64 m | none ↦ [] ];
  }

  -- `true` is the return value 0, `false` is -1.
  unfoldable pub call_begin :
      ProcCtx → Edges → ℕ → Option Bytes → Option Bytes → Bool × ProcCtx × Edges
  unfolding report call_text
  call_begin ctx es callee_chan callee_oid method =
      if callee_chan == 0 || ctx.actor_chan == 0
      then (true, ctx, es)
      else if ctx.actor_chan == callee_chan
      then (
        false,
        report ctx (
            codes "sync actor call to self"
            ++ (call_text (codes " for ") method ++ codes "; use a direct method call")),
        es,
      )
      else if path_exists es callee_chan ctx.actor_chan
      then (
        false,
        report ctx (codes "actor call cycle detected" ++ call_text (codes " on ") method),
        es,
      )
      else (
        true,
        ctx,
        if ltb (length es) max_call_edges
            then es ++ new_edge ctx callee_chan callee_oid method ∷ []
            else es,
      )

-- the loop of `o9_dag_call_end`: the index of the first edge from `caller` to `callee`
unfoldable pub find_edge : Edges → ℕ → ℕ → ℕ → Option ℕ
find_edge [] i caller callee = none
find_edge (e ∷ es) i caller callee =
    let rest = find_edge es (i + 1) caller callee in
    if e.caller == caller && e.callee == callee then some i else rest

unfoldable pub call_end : ProcCtx → Edges → ℕ → Edges
call_end ctx es callee_chan =
    if callee_chan == 0 || ctx.actor_chan == 0
    then es
    else elim (find_edge es 0 ctx.actor_chan callee_chan) [ none ↦ es | some i ↦ remove_at es i ]

-- the test of `o9_dag_actor_exit`
abbrev pub touches : ℕ → Edge → Bool
touches chan e = e.caller == chan || e.callee == chan

-- the loop of `o9_dag_actor_exit` from index `i` on; each round brings `i` and the length closer
unfoldable pub purge : ℕ → Edges → ℕ → ℕ → Edges
purge zero es i chan = es
purge (suc rounds) es i chan = elim (get_elem? es i) [
  | none ↦ es
  | some e ↦
      purge rounds (if touches chan e then remove_at es i else es)
        (if touches chan e then i else i + 1) chan
]

unfoldable pub actor_exit : Edges → List ActorTid → ℕ → Edges × List ActorTid
actor_exit es tids actor_chan =
    if actor_chan == 0
    then (es, tids)
    else (purge (length es) es 0 actor_chan, actor_tid_remove tids actor_chan)

-- the loop of `o9_dag_waiting_for`
find_call : Edges → ℕ → Option Edge
find_call [] caller_chan = none
find_call (e ∷ es) caller_chan =
    if e.caller == caller_chan then some e else find_call es caller_chan

-- `none` is the return value 0. The two texts are what the buffers of `ncallee` and `nmeth` bytes
-- receive; nothing is written to a buffer of no bytes, nor to nil, which counts as one.
unfoldable pub waiting_for : Libc → Edges → ℕ → ℕ → ℕ → Option (Option Bytes × Option Bytes)
unfolding find_call
waiting_for c es caller_chan ncallee nmeth =
    if caller_chan == 0 then none else elim (find_call es caller_chan) [
      | none ↦ none
      | some e ↦ some (
        if ltb 0 ncallee then some (c.snprint ncallee e.callee_oid) else none,
        if ltb 0 nmeth then some (c.snprint nmeth e.method) else none,
      )
    ]

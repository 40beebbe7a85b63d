-- ===== src/Dag/System.antt =====
-- Any interleaving of calls, returns and exits of any number of actors over the shared table.
use objective_9c.Prelude.{ℕ, List, ◌≡◌, [], Option, Bytes, arith}
use objective_9c.Prelude.Libc.{Libc}
use objective_9c.Actor.{ProcCtx, ActorTid}
use objective_9c.Dag.{Edges, call_begin, call_end, actor_exit}
use objective_9c.Dag.Walk.{WaitsFor, calls_of}
use objective_9c.Dag.Begin.{IsValid, call_begin-IsValid}
use objective_9c.Dag.Exit.{call_end-IsValid, actor_exit-IsValid}

-- One call of one actor, in any process. An actor begins a call only while it waits for none: its
-- process is blocked from `o9_dag_call_begin` to the `o9_dag_call_end` of the same call.
pub data Step (c : Libc) : Edges → Edges → Type 0 where
  begin :
      (ctx : ProcCtx) (es : Edges) (callee : ℕ) (oid method : Option Bytes)
      → calls_of ctx.actor_chan es ≡ 0
      → Step c es (call_begin c ctx es callee oid method).2
  finish : (ctx : ProcCtx) (es : Edges) (callee : ℕ) → Step c es (call_end ctx es callee)
  exit : (es : Edges) (tids : List ActorTid) (chan : ℕ) → Step c es (actor_exit es tids chan).0

pub data Reach (c : Libc) : Edges → Type 0 where
  start : Reach c []
  next : {es fs : Edges} → Reach c es → Step c es fs → Reach c fs

pub empty-IsValid : IsValid []
empty-IsValid = record {
  single = λ a. omega arith;
  acyclic = λ a p. no_path p;
  bounded = omega arith;
}
  where
    no_path : {a b : ℕ} → WaitsFor [] a b → ⊥
    no_path (WaitsFor.one h) = omega arith
    no_path (WaitsFor.more h p) = omega arith

Step-IsValid : {c : Libc} {es fs : Edges} → Step c es fs → IsValid es → IsValid fs
Step-IsValid {c} (begin ctx es callee oid method idle) v =
    call_begin-IsValid c ctx es callee oid method idle v
Step-IsValid (finish ctx es callee) v = call_end-IsValid ctx es callee v
Step-IsValid (exit es tids chan) v = actor_exit-IsValid es tids chan v

-- Whatever the actors do, and in whatever order, each of them beginning a call only while it waits for
-- none: no actor ever waits for itself through the recorded calls, no caller stands twice, and the
-- table keeps its bound.
pub Reach-IsValid : {c : Libc} {es : Edges} → Reach c es → IsValid es
Reach-IsValid start = empty-IsValid
Reach-IsValid (next r s) = Step-IsValid s (Reach-IsValid r)

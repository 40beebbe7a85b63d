-- ===== src/Router/Strand.antt =====
-- No request is left in a mailbox without a worker process, if processes can be made.
use objective_9c.Prelude.{true, arith}
use objective_9c.Router.Workers.{
  Pool, Step, submit_running, submit_starting, serve, rest, stop, restart, restart_fails, finish,
  unregister, reopen, Reach, start, next, IsAttended,
}

Step-IsAttended : (s t : Pool) → Step true s t → IsAttended s → IsAttended t
Step-IsAttended s t (submit_running a b c e) v = ground arith
Step-IsAttended s t (submit_starting a b c d e) v = ground arith
Step-IsAttended s t (serve a b c e) v = ground arith
Step-IsAttended s t (rest a b e) v = ground arith
Step-IsAttended s t (stop a b e) v = ground arith
Step-IsAttended s t (restart a b c d e) v = ground arith
Step-IsAttended s t (restart_fails a b c d e) v = cc
Step-IsAttended s t (finish a b e) v = ground arith
Step-IsAttended s t (unregister e) v = ground arith
Step-IsAttended s t (reopen e) v = ground arith

-- While proccreate succeeds: in every state that submissions, workers and unregistrations reach, in any order, there is a worker
-- process while a request is queued, the queue keeps its bound, and a closed mailbox has no requests.
pub Reach-IsAttended : (s : Pool) → Reach true s → IsAttended s
Reach-IsAttended s start = ground arith
Reach-IsAttended s (next {s = r} w st) = Step-IsAttended r s st (Reach-IsAttended r w)

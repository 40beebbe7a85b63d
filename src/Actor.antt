-- ===== src/Actor.antt =====
-- The per-process context of o9_runtime.c (O9ProcCtx and the functions that read and write it) and
-- the table from dispatch channels to thread ids (o9_actor_tid_put, o9_actor_tid_remove,
-- o9_tid_for_chan). Pointers are numbers and nil is 0. The context of the calling process is passed
-- in and returned; `o9_proc_ctx` itself, which finds it through libthread, is not modelled.
pub mod Tids
pub mod Tests
use objective_9c.Prelude.{
  ℕ, zero, suc, ◌+◌, List, [], ◌∷◌, Option, some, none, Bool, true, false, not, ◌&&◌, ◌==◌,
  if◌then◌else◌, Bytes, bytes_eq, set,
}
use objective_9c.Prelude.Libc.{Libc}

-- `O9ProcCtx` without its data stack. `err` and `caller` hold the text that the C pointer shows;
-- `werrstr` is the text last handed to libc's werrstr.
pub record ProcCtx : Type 0 where
  pub err : Option Bytes
  pub werrstr : Bytes
  pub actor_chan : ℕ
  pub actor_active : Bool
  pub actor_oid : Bytes
  pub userbuf : Bytes
  pub caller : Option Bytes
  pub blessed : Bool

-- `O9ActorTid`
pub record ActorTid : Type 0 where
  pub chan : ℕ
  pub tid : ℕ

-- the second test in the loop of `o9_actor_tid_put`: the first free slot is remembered
first_free : Option ℕ → ActorTid → ℕ → Option ℕ
first_free (some k) e i = some k
first_free none e i = if e.chan == 0 then some i else none

-- the loop of `o9_actor_tid_put`: the slot of `chan`, else the first free one
put_slot : List ActorTid → ℕ → ℕ → Option ℕ → Option ℕ
put_slot [] i chan slot = slot
put_slot (e ∷ es) i chan slot =
    let rest = put_slot es (i + 1) chan (first_free slot e i) in
    if e.chan == chan then some i else rest

unfoldable pub actor_tid_put : List ActorTid → ℕ → ℕ → List ActorTid
unfolding put_slot first_free
actor_tid_put table chan tid =
    if chan == 0
    then table
    else set table (elim (put_slot table 0 chan none) [ none ↦ 0 | some i ↦ i ])
        (record { chan = chan; tid = tid })

-- the loop of `o9_actor_tid_remove`
remove_first : List ActorTid → ℕ → List ActorTid
remove_first [] chan = []
remove_first (e ∷ es) chan =
    if e.chan == chan then record { chan = 0; tid = 0 } ∷ es else e ∷ remove_first es chan

unfoldable pub actor_tid_remove : List ActorTid → ℕ → List ActorTid
unfolding remove_first
actor_tid_remove table chan = if chan == 0 then table else remove_first table chan

-- the loop of `o9_tid_for_chan`
find_tid : List ActorTid → ℕ → ℕ
find_tid [] chan = 0
find_tid (e ∷ es) chan = if e.chan == chan then e.tid else find_tid es chan

unfoldable pub tid_for_chan : List ActorTid → ℕ → ℕ
unfolding find_tid
tid_for_chan table chan = if chan == 0 then 0 else find_tid table chan

unfoldable pub set_call_err : ProcCtx → Option Bytes → ProcCtx
set_call_err ctx e = record ctx { err = e }

unfoldable pub get_call_err : ProcCtx → Option Bytes
get_call_err ctx = ctx.err

module _ (c : Libc) where
  -- `threadid` is what libthread's threadid() returns in the calling process.
  unfoldable pub actor_enter :
      ProcCtx → List ActorTid → ℕ → Option Bytes → ℕ → ProcCtx × List ActorTid
  actor_enter ctx table dispatch_chan oid threadid = (
    record ctx {
      actor_chan = dispatch_chan;
      actor_active = not (dispatch_chan == 0);
      actor_oid = elim oid [ none ↦ [] | some s ↦ c.snprint 64 s ];
    },
    actor_tid_put table dispatch_chan threadid,
  )

  unfoldable pub set_current_request : ProcCtx → Option Bytes → Bool → ProcCtx
  set_current_request ctx none bless = record ctx { blessed = bless; caller = none; userbuf = [] }
  set_current_request ctx (some []) bless = record ctx {
    blessed = bless;
    caller = none;
    userbuf = [];
  }
  set_current_request ctx (some (b ∷ bs)) bless = record ctx {
    blessed = bless;
    userbuf = c.snprint 64 (b ∷ bs);
    caller = some (c.snprint 64 (b ∷ bs));
  }

  unfoldable pub set_current_user : ProcCtx → Option Bytes → ProcCtx
  set_current_user ctx user = set_current_request ctx user false

-- `getuser` is what libc's getuser() returns, if it returns a name.
unfoldable pub current_user : ProcCtx → Option Bytes → Bytes
current_user ctx getuser =
    let fallback : Bytes = elim getuser [ some u ↦ u | none ↦ [] ] in
    elim ctx.caller [ none ↦ fallback | some [] ↦ fallback | some (b ∷ bs) ↦ b ∷ bs ]

unfoldable pub current_user_is : ProcCtx → Option Bytes → Option Bytes → Bool
current_user_is ctx getuser none = false
current_user_is ctx getuser (some user) = bytes_eq (current_user ctx getuser) user

-- The owner check of `o9_dispatch_call_checked`: whether the call goes on to the dispatch cache.
-- `client` is the object's dispatch channel, or none for a nil client.
unfoldable pub dispatch_allowed : ProcCtx → Option ℕ → Bool
dispatch_allowed ctx none = false
dispatch_allowed ctx (some dispatch_chan) =
    if dispatch_chan == 0 then false else ctx.actor_active && ctx.actor_chan == dispatch_chan

unfoldable pub actor_channel : ProcCtx → ℕ
actor_channel ctx = ctx.actor_chan

unfoldable pub current_user_blessed : ProcCtx → Bool
current_user_blessed ctx = ctx.blessed

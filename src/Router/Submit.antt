-- ===== src/Router/Submit.antt =====
-- o9_router_submit and o9_router_unregister_actor on the whole state of the router. What the
-- environment decides (closing channels, memory, new processes) is in `Env`. A request that ends here
-- is reported in a list of completions, one for each call of the completion function.
use objective_9c.Prelude.{
  ℕ, zero, suc, ◌+◌, ◌%◌, ◌^◌, List, [], ◌∷◌, ◌++◌, Option, some, none, Bool, true, false, ◌&&◌,
  ◌||◌, not, ◌==◌, ltb, if◌then◌else◌, Bytes, clip, take, get_elem?, set,
}
use objective_9c.Ring
use objective_9c.Ring.{Ring}
use objective_9c.ObjTable.{ObjTab, register, unregister}
use objective_9c.Router.Mailbox.{Slot, Mailbox, Boxes, is_for, get_mailbox, box_at, set_box}

pub record Env : Type 0 where
  -- chanclosing(c) >= 0
  pub chan_closing : ℕ → Bool
  pub args_memory : Bool
  pub box_memory : Bool
  -- proccreate succeeds
  pub spawns : Bool
  -- a ring in zeroed memory
  pub empty_ring : Ring Slot

pub record Router : Type 0 where
  pub boxes : Boxes
  pub table : ObjTab

-- the arguments of o9_router_submit; `nargs` is not negative
pub record Call : Type 0 where
  pub request : ℕ
  pub class : Bytes
  pub oid : Bytes
  pub inst : ℕ
  pub chan : ℕ
  pub sel : ℕ
  pub args : Option (List ℕ)
  pub nargs : ℕ
  pub caller : Option Bytes
  pub blessed : Bool
  pub complete : Bool
  pub aux : ℕ

-- a call of a completion function: with a nil reply, or with the reply "actor terminated"
pub data Completion : Type 0 where
  failed : ℕ → Completion
  terminated : ℕ → Completion

-- o9_router_fail_request
unfoldable pub fail_request : Call → List Completion
fail_request c = if c.complete then failed c.request ∷ [] else []

unfoldable pub make_slot : Call → ℕ → Slot
make_slot c handle = record {
  request = c.request;
  handle = handle;
  sel = c.sel;
  tag = 0;
  flags = if c.blessed then 1 else 0;
  nargs = c.nargs;
  args = elim c.args [ none ↦ [] | some xs ↦ take c.nargs xs ];
  caller = elim c.caller [ none ↦ [] | some s ↦ clip 63 s ];
  target_class = clip 63 c.class;
  target_oid = clip 63 c.oid;
  complete = c.complete;
  aux = c.aux;
}

-- more than four arguments are copied to memory of their own
unfoldable pub needs_memory : Call → Bool
needs_memory c = elim c.args [ none ↦ false | some xs ↦ ltb 4 c.nargs ]

-- The end of o9_router_submit on its mailbox, by the tests that it makes: whether the ring had room,
-- whether a worker runs, whether one can be started. `ring` is the ring after the attempt.
unfoldable pub settle : Bool → Bool → Bool → Mailbox → Ring Slot → Bool × Mailbox
settle false running spawns mb ring = (false, record mb { ring = ring })
settle true true spawns mb ring = (true, record mb { ring = ring })
settle true false true mb ring = (true, record mb { ring = ring; worker_running = true })
settle true false false mb ring =
    (false, record mb { ring = (Ring.consume ring).2; worker_running = false })

-- the tag is taken first, then the slot goes to the ring
unfoldable pub deliver : Bool → Mailbox → Slot → Bool × Mailbox
deliver spawns mb slot =
    let (room, ring') = Ring.submit mb.ring (record slot { tag = mb.next_tag }) in
    settle room mb.worker_running spawns (record mb { next_tag = (mb.next_tag + 1) % 2 ^ 16 }) ring'

-- `entries[idx].mb = mb`
unfoldable pub set_mb : ObjTab → ℕ → ℕ → ObjTab
set_mb t idx a = elim (get_elem? t.entries idx) [
  | none ↦ t
  | some e ↦ record t { entries = set t.entries idx (record e { mb = a }) }
]

unfoldable pub mb_of : ObjTab → ℕ → ℕ
mb_of t idx = elim (get_elem? t.entries idx) [ none ↦ 0 | some e ↦ e.mb ]

unfoldable pub is_open : Option Mailbox → Bool
is_open none = false
is_open (some mb) = not mb.closed

-- the mailbox that the entry points at, brought up to date
unfoldable pub use_known : Router → Call → ℕ → Option Mailbox → ℕ × Router
use_known rt c handle none = (0, rt)
use_known rt c handle (some mb) = (
  mb.addr,
  record rt {
    boxes = set_box rt.boxes mb.addr (record mb { dispatch_chan = c.chan; handle = handle });
  },
)

-- the mailbox that `o9_router_get_mailbox_locked` returned, noted in the entry
unfoldable pub use_found : Router → ℕ → Option (ℕ × Boxes) → ℕ × Router
use_found rt idx none = (0, rt)
use_found rt idx (some (a, boxes)) = (a, record { boxes = boxes; table = set_mb rt.table idx a })

-- the mailbox of the call: the one that the entry points at while it is open, else by name
unfoldable pub open_box : Env → Router → Call → ℕ → ℕ × Router
open_box env rt c handle =
    let idx = handle % 2 ^ 16 in
    let known = box_at rt.boxes (mb_of rt.table idx) in
    if is_open known
    then use_known rt c handle known
    else use_found rt idx
        (get_mailbox env.empty_ring env.box_memory rt.boxes c.class c.oid c.chan handle)

-- the return value and the completions for what `deliver` did to the mailbox at `a`
unfoldable pub conclude : Router → Call → ℕ → Bool × Mailbox → Bool × List Completion × Router
conclude rt c a (true, mb) = (true, [], record rt { boxes = set_box rt.boxes a mb })
conclude rt c a (false, mb) = (false, fail_request c, record rt { boxes = set_box rt.boxes a mb })

unfoldable pub with_box :
    Env → Router → Call → ℕ → ℕ → Option Mailbox → Bool × List Completion × Router
with_box env rt c handle a none = (false, fail_request c, rt)
with_box env rt c handle a (some mb) =
    if mb.closed
    then (false, fail_request c, rt)
    else conclude rt c a (deliver env.spawns mb (make_slot c handle))

-- what is done under o9_router.lk with the mailbox at `a`
unfoldable pub enqueue : Env → Router → Call → ℕ → ℕ → Bool × List Completion × Router
enqueue env rt c handle a = with_box env rt c handle a (box_at rt.boxes a)

-- `true` is the return value 0, `false` is -1.
unfoldable pub submit : Env → Router → Call → Bool × List Completion × Router
submit env rt c =
    if c.chan == 0 || env.chan_closing c.chan
    then (false, fail_request c, rt)
    else let (handle, table') = register rt.table c.class c.oid c.inst c.chan in
      let rt' : Router = record rt { table = table' } in
      if handle == 0
      then (false, fail_request c, rt')
      else if needs_memory c && not env.args_memory
      then (false, fail_request c, rt')
      else let (a, rt'') = open_box env rt' c handle in enqueue env rt'' c handle a

-- the completion of a request that is still queued when its actor goes
unfoldable pub end_request : Slot → List Completion
end_request s = if s.complete then terminated s.request ∷ [] else []

-- the inner loop of o9_router_unregister_actor
unfoldable pub drain : ℕ → Ring Slot → List Completion × Ring Slot
drain zero r = ([], r)
drain (suc rounds) r =
    let (got, slot, r') = Ring.consume r in
    let rest = drain rounds r' in
    if got
    then (elim slot [ none ↦ rest.0 | some s ↦ end_request s ++ rest.0 ], rest.1)
    else ([], r)

-- one mailbox closed: its completions, and whether a waiting worker is sent a reply
unfoldable pub close_box : Mailbox → List Completion × Bool × Mailbox
close_box mb =
    let (ends, ring') = drain (Ring.ring_size + 1) mb.ring in
    (
      ends,
      mb.in_flight && mb.has_replyc,
      record mb { closed = true; dispatch_chan = 0; ring = ring' },
    )

unfoldable pub close_named : Boxes → Bytes → Bytes → List Completion × Boxes
close_named [] class oid = ([], [])
close_named (mb ∷ boxes) class oid =
    let (ends, _, mb') = close_box mb in
    let rest = close_named boxes class oid in
    if is_for class oid mb then (ends, mb' ∷ boxes) else (rest.0, mb ∷ rest.1)

unfoldable pub unregister_actor : Router → Bytes → Bytes → List Completion × Router
unregister_actor rt class oid =
    let (ends, boxes') = close_named rt.boxes class oid in
    (ends, record { boxes = boxes'; table = unregister rt.table class oid })

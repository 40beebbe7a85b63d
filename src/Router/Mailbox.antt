-- ===== src/Router/Mailbox.antt =====
-- The mailboxes of o9_router: O9Slot, O9Mailbox, and o9_router_get_mailbox_locked. The list is kept
-- newest first, as the C list is. A mailbox pointer is the number `addr` that it was made with.
use objective_9c.Prelude.{
  ℕ, ◌+◌, List, [], ◌∷◌, Option, some, none, Bool, true, false, ◌&&◌, ◌==◌, if◌then◌else◌, Bytes,
  bytes_eq, clip, length,
}
use objective_9c.Ring.{Ring}

-- `O9Slot`. The arguments are the list that `args` or `extra_args` holds; `complete` says whether a
-- completion function is given.
pub record Slot : Type 0 where
  pub request : ℕ
  pub handle : ℕ
  pub sel : ℕ
  pub tag : ℕ
  pub flags : ℕ
  pub nargs : ℕ
  pub args : List ℕ
  pub caller : Bytes
  pub target_class : Bytes
  pub target_oid : Bytes
  pub complete : Bool
  pub aux : ℕ

pub record Mailbox : Type 0 where
  pub addr : ℕ
  pub class : Bytes
  pub oid : Bytes
  pub handle : ℕ
  pub dispatch_chan : ℕ
  pub has_replyc : Bool
  pub ring : Ring Slot
  pub next_tag : ℕ
  pub worker_running : Bool
  pub in_flight : Bool
  pub closed : Bool

abbrev pub Boxes : Type 0
Boxes = List Mailbox

unfoldable pub is_for : Bytes → Bytes → Mailbox → Bool
is_for class oid mb = bytes_eq mb.class class && bytes_eq mb.oid oid

-- what a mailbox that is found again is set to
unfoldable pub reopen : Mailbox → ℕ → ℕ → Mailbox
reopen mb chan handle = record mb {
  dispatch_chan = if chan == 0 then mb.dispatch_chan else chan;
  handle = if handle == 0 then mb.handle else handle;
  closed = if handle == 0 then mb.closed else false;
  has_replyc = true;
}

-- the search of `o9_router_get_mailbox_locked`: the address found, and the list with that mailbox set
unfoldable pub reuse : Boxes → Bytes → Bytes → ℕ → ℕ → Option (ℕ × Boxes)
reuse [] class oid chan handle = none
reuse (mb ∷ boxes) class oid chan handle =
    let rest : Option (ℕ × Boxes) = elim (reuse boxes class oid chan handle) [
      | none ↦ none
      | some (a, boxes') ↦ some (a, mb ∷ boxes')
    ] in
    if is_for class oid mb then some (mb.addr, reopen mb chan handle ∷ boxes) else rest

-- the address of the next mailbox: they are never freed
unfoldable pub next_addr : Boxes → ℕ
next_addr boxes = length boxes + 1

-- the mailbox that is made for a new name; `empty_ring` is the ring in zeroed memory
unfoldable pub new_box : Ring Slot → ℕ → Bytes → Bytes → ℕ → ℕ → Mailbox
new_box empty_ring addr class oid chan handle = record {
  addr = addr;
  class = clip 63 class;
  oid = clip 63 oid;
  handle = handle;
  dispatch_chan = chan;
  has_replyc = true;
  ring = empty_ring;
  next_tag = 0;
  worker_running = false;
  in_flight = false;
  closed = false;
}

-- `memory` says whether mallocz succeeds.
unfoldable pub get_mailbox : Ring Slot → Bool → Boxes → Bytes → Bytes → ℕ → ℕ → Option (ℕ × Boxes)
get_mailbox empty_ring memory boxes class oid chan handle =
    let a = next_addr boxes in
    elim (reuse boxes class oid chan handle) [
      | some found ↦ some found
      | none ↦ if memory then some (a, new_box empty_ring a class oid chan handle ∷ boxes) else none
    ]

-- the mailbox behind a pointer; none for nil
unfoldable pub box_at : Boxes → ℕ → Option Mailbox
box_at [] a = none
box_at (mb ∷ boxes) a = if mb.addr == a then some mb else box_at boxes a

-- a write through a mailbox pointer
unfoldable pub set_box : Boxes → ℕ → Mailbox → Boxes
set_box [] a new = []
set_box (mb ∷ boxes) a new = if mb.addr == a then new ∷ boxes else mb ∷ set_box boxes a new

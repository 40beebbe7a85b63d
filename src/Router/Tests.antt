-- ===== src/Router/Tests.antt =====
-- Small runs of the router.
use objective_9c.Prelude.{◌^◌, ◌≡◌, refl, [], ◌∷◌, none, true, false, arith, codes, replicate, set}
use objective_9c.Ring.{Ring}
use objective_9c.Ring.Refine.{IsValid}
use objective_9c.ObjTable.{vacant}
use objective_9c.Router.Mailbox.{Slot, Mailbox}
use objective_9c.Router.Submit.{
  Env, Router, Call, submit, deliver, close_box, terminated, drain, end_request,
}
use objective_9c.Router.Deliver.{IsServed, Delivered, deliver_lem, deliver-IsServed}
use objective_9c.Router.Served.{AllServed}
use objective_9c.Router.Once.{QueuedOrFailed, submit_once}
use objective_9c.Router.Workers.{serving, Reach, many_workers, IsAttended}
use objective_9c.Router.Strand.{Reach-IsAttended}

abbrev blank : Slot
blank = record {
  request = 0;
  handle = 0;
  sel = 0;
  tag = 0;
  flags = 0;
  nargs = 0;
  args = [];
  caller = [];
  target_class = [];
  target_oid = [];
  complete = false;
  aux = 0;
}

abbrev zeroed : Ring Slot
zeroed = record { head = 0; tail = 0; slots = replicate 64 blank }

abbrev environment : Env
environment = record {
  chan_closing = λ c. false;
  args_memory = true;
  box_memory = true;
  spawns = true;
  empty_ring = zeroed;
}

abbrev router : Router
router = record {
  boxes = [];
  table = record {
    entries = replicate 256 (record {
      gen = 0;
      active = false;
      class = [];
      oid = [];
      inst = 0;
      dispatch_chan = 0;
      mb = 0;
    });
    hash_tab = replicate 256 vacant;
    inited = true;
  };
}

abbrev call : Call
call = record {
  request = 11;
  class = codes "App";
  oid = codes "c1";
  inst = 5;
  chan = 9;
  sel = 3;
  args = none;
  nargs = 0;
  caller = none;
  blessed = false;
  complete = true;
  aux = 0;
}

zeroed-IsValid : IsValid zeroed
zeroed-IsValid = omega arith

submit_once_example :
    QueuedOrFailed blank call (submit environment router call)
    × AllServed blank (submit environment router call).2.boxes
submit_once_example = submit_once blank environment router call zeroed-IsValid refl tt

-- a mailbox that holds the request 7, which a worker serves
abbrev box : Mailbox
box = record {
  addr = 1;
  class = codes "App";
  oid = codes "c1";
  handle = 2 ^ 16;
  dispatch_chan = 9;
  has_replyc = true;
  ring = record {
    head = 1;
    tail = 0;
    slots = set (replicate 64 blank) 0 (record blank { request = 7; complete = true });
  };
  next_tag = 1;
  worker_running = true;
  in_flight = false;
  closed = false;
}

box-IsServed : IsServed blank box
box-IsServed = record { ring_valid = omega arith; idle_empty = λ h. cc }

deliver_lem_example : Delivered blank box blank (deliver false box blank)
deliver_lem_example = deliver_lem blank false box blank box-IsServed

deliver-IsServed_example : IsServed blank (deliver false box blank).1
deliver-IsServed_example = deliver-IsServed blank false box blank box-IsServed

close-box : (close_box box).0 ≡ terminated 7 ∷ []
unfolding close_box drain end_request objective_9c.Ring.consume
close-box = refl

many_workers_example : Reach true (serving 3)
many_workers_example = many_workers 2

Reach-IsAttended_example : IsAttended (serving 3)
Reach-IsAttended_example = Reach-IsAttended (serving 3) (many_workers 2)

-- ===== src/Router/Deliver.antt =====
-- What o9_router_submit does to a mailbox, and what o9_router_unregister_actor does to the requests
-- that are still queued.
use objective_9c.Prelude.{
  ◌+◌, ◌%◌, ◌^◌, ◌≡◌, refl, sym, ap, ◌∙◌, ◌⊎◌, inl, inr, List, [], ◌∷◌, ◌++◌, Bool, true, false,
}
use objective_9c.Ring
use objective_9c.Ring.{Ring}
use objective_9c.Ring.Refine.{
  IsValid, contents, submit-IsValid, consume-IsValid, submit-cases, consume_rest,
}
use objective_9c.Router.Mailbox.{Slot, Mailbox}
use objective_9c.Router.Submit.{Completion, deliver, end_request, settle}

module _ (blank : Slot) where
  abbrev pub queued : Mailbox → List Slot
  queued mb = contents blank mb.ring

  -- A mailbox without a worker has nothing to do.
  pub record IsServed (mb : Mailbox) : Type 0 where
    pub ring_valid : IsValid mb.ring
    pub idle_empty : mb.worker_running ≡ false → queued mb ≡ []

  -- the slot as it is queued: with the mailbox's next tag
  abbrev pub tagged : Mailbox → Slot → Slot
  tagged mb s = record s { tag = mb.next_tag }

  -- the outcome of a delivery
  abbrev pub Delivered : Mailbox → Slot → Bool × Mailbox → Type 0
  Delivered mb s r =
      ((r.0 ≡ true) × (queued r.1 ≡ queued mb ++ tagged mb s ∷ []) × (r.1.worker_running ≡ true))
      ⊎ ((r.0 ≡ false) × (queued r.1 ≡ queued mb))

  settle-Delivered :
      (room running spawns : Bool) (mb : Mailbox) (s : Slot) (mb' : Mailbox) (ring' : Ring Slot)
      → IsValid ring'
      → mb'.worker_running ≡ running
      → (running ≡ false → queued mb ≡ [])
      → ((room ≡ true) × (contents blank ring' ≡ queued mb ++ tagged mb s ∷ []))
        ⊎ ((room ≡ false) × (ring' ≡ mb.ring))
      → Delivered mb s (settle room running spawns mb' ring')
  unfolding settle
  settle-Delivered false running spawns mb s mb' ring' v w idle (inl (r, _)) = cc
  settle-Delivered false running spawns mb s mb' ring' v w idle (inr (_, e)) =
      inr (refl, ap (contents blank) e)
  settle-Delivered true running spawns mb s mb' ring' v w idle (inr (r, _)) = cc
  settle-Delivered true true spawns mb s mb' ring' v w idle (inl (_, e)) = inl (refl, e, w)
  settle-Delivered true false true mb s mb' ring' v w idle (inl (_, e)) = inl (refl, e, refl)
  settle-Delivered true false false mb s mb' ring' v w idle (inl (_, e)) =
      let one : contents blank ring' ≡ tagged mb s ∷ [] = rw (idle refl) at e in
      let (_, _, rest) = consume_rest blank ring' (tagged mb s) [] v one in
      inr (refl, rest ∙ sym (idle refl))

  -- Accepted, a request is the last in the queue and a worker runs; refused, it is in no queue and
  -- the queue is what it was.
  pub deliver_lem :
      (spawns : Bool) (mb : Mailbox) (s : Slot) → IsServed mb → Delivered mb s (deliver spawns mb s)
  unfolding deliver
  deliver_lem spawns mb s v =
      let (room, ring') = Ring.submit mb.ring (tagged mb s) in
      settle-Delivered room mb.worker_running spawns mb s
        (record mb { next_tag = (mb.next_tag + 1) % 2 ^ 16 }) ring'
        (submit-IsValid (tagged mb s) v.ring_valid) refl v.idle_empty
        (submit-cases blank mb.ring (tagged mb s) v.ring_valid)

  settle-IsServed :
      (room running spawns : Bool) (mb : Mailbox) (s : Slot) (mb' : Mailbox) (ring' : Ring Slot)
      → IsValid ring'
      → mb'.worker_running ≡ running
      → (running ≡ false → queued mb ≡ [])
      → ((room ≡ true) × (contents blank ring' ≡ queued mb ++ tagged mb s ∷ []))
        ⊎ ((room ≡ false) × (ring' ≡ mb.ring))
      → IsServed (settle room running spawns mb' ring').1
  unfolding settle
  settle-IsServed false running spawns mb s mb' ring' v w idle (inl (r, _)) = cc
  settle-IsServed false running spawns mb s mb' ring' v w idle (inr (_, e)) = record {
    ring_valid = v;
    idle_empty = λ q. ap (contents blank) e ∙ idle (sym w ∙ q);
  }
  settle-IsServed true running spawns mb s mb' ring' v w idle (inr (r, _)) = cc
  settle-IsServed true true spawns mb s mb' ring' v w idle (inl (_, e)) = record {
    ring_valid = v;
    idle_empty = λ q. cc;
  }
  settle-IsServed true false true mb s mb' ring' v w idle (inl (_, e)) = record {
    ring_valid = v;
    idle_empty = λ q. cc;
  }
  settle-IsServed true false false mb s mb' ring' v w idle (inl (_, e)) =
      let one : contents blank ring' ≡ tagged mb s ∷ [] = rw (idle refl) at e in
      let (_, _, rest) = consume_rest blank ring' (tagged mb s) [] v one in
      record { ring_valid = consume-IsValid v; idle_empty = λ q. rest }

  -- A delivery leaves no mailbox with requests and without a worker.
  pub deliver-IsServed :
      (spawns : Bool) (mb : Mailbox) (s : Slot) → IsServed mb → IsServed (deliver spawns mb s).1
  unfolding deliver
  deliver-IsServed spawns mb s v =
      let (room, ring') = Ring.submit mb.ring (tagged mb s) in
      settle-IsServed room mb.worker_running spawns mb s
        (record mb { next_tag = (mb.next_tag + 1) % 2 ^ 16 }) ring'
        (submit-IsValid (tagged mb s) v.ring_valid) refl v.idle_empty
        (submit-cases blank mb.ring (tagged mb s) v.ring_valid)

  -- the completions of a queue of requests, oldest first
  abbrev pub end_all : List Slot → List Completion
  end_all [] = []
  end_all (s ∷ q) = end_request s ++ end_all q

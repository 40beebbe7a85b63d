-- ===== src/Router/Once.antt =====
-- Every request that comes to o9_router_submit is either queued once or failed once.
use objective_9c.Prelude.{
  if◌then◌else◌, ℕ, ◌≡◌, refl, ◌∙◌, ◌⊎◌, inl, inr, List, [], ◌∷◌, ◌++◌, Option, some, none, Bool,
  true, false, not, ◌==◌, ◌&&◌, ◌||◌, if_ind,
}
use objective_9c.Ring.Refine.{IsValid, contents}
use objective_9c.ObjTable.{register}
use objective_9c.Router.Mailbox.{Slot, Mailbox, box_at}
use objective_9c.Router.Submit.{
  Env, Router, Call, Completion, failed, fail_request, make_slot, deliver, enqueue, submit,
  open_box, needs_memory, conclude, with_box,
}
use objective_9c.Router.Deliver.{queued, IsServed, tagged, Delivered, deliver_lem, deliver-IsServed}
use objective_9c.Router.Served.{
  addr-deliver, box_at-addr, box_at-set_box, AllServed, AllServed-box_at, AllServed-set_box,
  AllServed-open_box,
}

module _ (blank : Slot) where
  -- the request is the last one queued in some mailbox that a worker serves
  abbrev pub Queued : Router → Call → Type 0
  Queued rt c =
      (a : ℕ) × (mb : Mailbox) × (s : Slot) × (q : List Slot) × (box_at rt.boxes a ≡ some mb)
      × (queued blank mb ≡ q ++ s ∷ [])
      × (s.request ≡ c.request)
      × (s.complete ≡ c.complete)
      × (mb.worker_running ≡ true)

  -- either of the two ends of a call; a request that fails is completed with a nil reply, once
  abbrev pub QueuedOrFailed : Call → Bool × List Completion × Router → Type 0
  QueuedOrFailed c r =
      ((r.0 ≡ true) × (r.1 ≡ []) × Queued r.2 c)
      ⊎ ((r.0 ≡ false) × (r.1 ≡ (if c.complete then failed c.request ∷ [] else [])))

  conclude_once :
      (rt : Router) (c : Call) (a : ℕ) (mb : Mailbox) (s : Slot) (r : Bool × Mailbox)
      → s.request ≡ c.request
      → s.complete ≡ c.complete
      → box_at rt.boxes a ≡ some mb
      → r.1.addr ≡ a
      → Delivered blank mb s r
      → QueuedOrFailed c (conclude rt c a r)
  unfolding conclude fail_request
  conclude_once rt c a mb s (true, mb') q w at_a e (inl (_, grown, runs)) = inl (
    refl,
    refl,
    (
      a,
      mb',
      tagged blank mb s,
      queued blank mb,
      box_at-set_box rt.boxes a mb mb' at_a e,
      grown,
      q,
      w,
      runs,
    ),
  )
  conclude_once rt c a mb s (true, mb') q w at_a e (inr (p, _)) = cc
  conclude_once rt c a mb s (false, mb') q w at_a e d = inr (refl, refl)

  conclude-AllServed :
      (rt : Router) (c : Call) (a : ℕ) (r : Bool × Mailbox)
      → AllServed blank rt.boxes
      → IsServed blank r.1
      → AllServed blank (conclude rt c a r).2.boxes
  unfolding conclude
  conclude-AllServed rt c a (true, mb) v w = AllServed-set_box blank rt.boxes a mb v w
  conclude-AllServed rt c a (false, mb) v w = AllServed-set_box blank rt.boxes a mb v w

  abbrev Ends : Call → Bool × List Completion × Router → Type 0
  Ends c r = QueuedOrFailed c r × AllServed blank r.2.boxes

  with_box_once :
      (env : Env) (rt : Router) (c : Call) (handle a : ℕ) (o : Option Mailbox)
      → box_at rt.boxes a ≡ o
      → AllServed blank rt.boxes
      → Ends c (with_box env rt c handle a o)
  unfolding with_box make_slot fail_request
  with_box_once env rt c handle a none h v = (inr (refl, refl), v)
  with_box_once env rt c handle a (some mb) h v =
      let s = make_slot c handle in
      let r = deliver env.spawns mb s in
      let served = AllServed-box_at blank rt.boxes a mb v h in
      let addr' : r.1.addr ≡ a = (addr-deliver env.spawns mb s).0 ∙ box_at-addr rt.boxes a mb h in
      if_ind (Ends c) mb.closed (false, fail_request c, rt) (conclude rt c a r)
        (λ _. (inr (refl, refl), v))
        (λ _. (
          conclude_once rt c a mb s r refl refl h addr' (deliver_lem blank env.spawns mb s served),
          conclude-AllServed rt c a r v (deliver-IsServed blank env.spawns mb s served),
        ))

  -- `o9_router_submit` returns 0 and calls no completion function, and then the request is the last
  -- one queued in a mailbox that a worker serves; or it returns -1, having called the request's
  -- completion function once, with a nil reply, if it has one. It keeps
  -- a worker for every mailbox with requests, if there was one. The ring in zeroed memory is valid
  -- and empty.
  pub submit_once :
      (env : Env) (rt : Router) (c : Call)
      → IsValid env.empty_ring
      → contents blank env.empty_ring ≡ []
      → AllServed blank rt.boxes
      → QueuedOrFailed c (submit env rt c) × AllServed blank (submit env rt c).2.boxes
  unfolding submit enqueue fail_request
  submit_once env rt c rv re v =
      let (handle, table') = register rt.table c.class c.oid c.inst c.chan in
      let rt' : Router = record rt { table = table' } in
      let opened = open_box env rt' c handle in
      if_ind (Ends c) (c.chan == 0 || env.chan_closing c.chan) (false, fail_request c, rt) _
        (λ _. (inr (refl, refl), v))
        (λ _.
          if_ind (Ends c) (handle == 0) (false, fail_request c, rt') _ (λ _. (inr (refl, refl), v))
            (λ _.
              if_ind (Ends c) (needs_memory c && not env.args_memory) (false, fail_request c, rt') _
                (λ _. (inr (refl, refl), v))
                (λ _.
                  with_box_once env opened.1 c handle opened.0 (box_at opened.1.boxes opened.0) refl
                    (AllServed-open_box blank env rt' c handle rv re v))))

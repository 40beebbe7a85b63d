-- ===== src/Router/Served.antt =====
-- The mailboxes of the router: no mailbox has requests and no worker, through every lookup.
use objective_9c.Prelude.{
  ℕ, ◌+◌, ◌%◌, ◌^◌, ◌≡◌, refl, sym, ap, ◌∙◌, inl, inr, [], ◌∷◌, Option, some, none, Bool, true,
  false, arith, Bool-cases, Option-cases, ◌==◌, Bytes, ==_iff, subst,
}
use objective_9c.Ring
use objective_9c.Ring.{Ring}
use objective_9c.Ring.Refine.{IsValid, contents}
use objective_9c.Router.Mailbox.{
  Slot, Mailbox, Boxes, is_for, reopen, reuse, next_addr, get_mailbox, box_at, set_box, new_box,
}
use objective_9c.Router.Submit.{
  Env, Router, Call, settle, deliver, open_box, mb_of, is_open, use_known, use_found,
}
use objective_9c.Router.Deliver.{IsServed}

addr-settle :
    (room running spawns : Bool) (mb : Mailbox) (ring : Ring Slot)
    → ((settle room running spawns mb ring).1.addr ≡ mb.addr)
      × ((settle room running spawns mb ring).1.closed ≡ mb.closed)
unfolding settle
addr-settle false running spawns mb ring = (refl, refl)
addr-settle true true spawns mb ring = (refl, refl)
addr-settle true false true mb ring = (refl, refl)
addr-settle true false false mb ring = (refl, refl)

pub addr-deliver :
    (spawns : Bool) (mb : Mailbox) (s : Slot)
    → ((deliver spawns mb s).1.addr ≡ mb.addr) × ((deliver spawns mb s).1.closed ≡ mb.closed)
unfolding deliver
addr-deliver spawns mb s =
    let r = Ring.submit mb.ring (record s { tag = mb.next_tag }) in
    addr-settle r.0 mb.worker_running spawns (record mb { next_tag = (mb.next_tag + 1) % 2 ^ 16 })
      r.1

pub box_at-addr : (boxes : Boxes) (a : ℕ) (mb : Mailbox) → box_at boxes a ≡ some mb → mb.addr ≡ a
unfolding box_at
box_at-addr [] a mb h = cc
box_at-addr (x ∷ boxes) a mb h = elim (Bool-cases (x.addr == a)) [
  | inl here ↦
      let e : x ≡ mb = ground arith in
      ap (λ (y : Mailbox). y.addr) (sym e) ∙ (==_iff x.addr a).0 here
  | inr other ↦ box_at-addr boxes a mb (ground arith)
]

pub box_at-set_box :
    (boxes : Boxes) (a : ℕ) (mb new : Mailbox)
    → box_at boxes a ≡ some mb
    → new.addr ≡ a
    → box_at (set_box boxes a new) a ≡ some new
unfolding box_at set_box
box_at-set_box [] a mb new h e = cc
box_at-set_box (x ∷ boxes) a mb new h e = elim (Bool-cases (x.addr == a)) [
  | inl here ↦ let now : (new.addr == a) ≡ true = (==_iff new.addr a).1 e in ground arith
  | inr other ↦
      let rest : box_at boxes a ≡ some mb = ground arith in
      let ih = box_at-set_box boxes a mb new rest e in ground arith
]

module _ (blank : Slot) where
  abbrev pub AllServed : Boxes → Type 0
  AllServed [] = Unit
  AllServed (mb ∷ boxes) = IsServed blank mb × AllServed boxes

  pub AllServed-box_at :
      (boxes : Boxes) (a : ℕ) (mb : Mailbox)
      → AllServed boxes
      → box_at boxes a ≡ some mb
      → IsServed blank mb
  unfolding box_at
  AllServed-box_at [] a mb v h = cc
  AllServed-box_at (x ∷ boxes) a mb v h = elim (Bool-cases (x.addr == a)) [
    | inl here ↦ let e : x ≡ mb = ground arith in subst (IsServed blank) e v.0
    | inr other ↦ AllServed-box_at boxes a mb v.1 (ground arith)
  ]

  pub AllServed-set_box :
      (boxes : Boxes) (a : ℕ) (new : Mailbox)
      → AllServed boxes
      → IsServed blank new
      → AllServed (set_box boxes a new)
  unfolding set_box
  AllServed-set_box [] a new v w = tt
  AllServed-set_box (x ∷ boxes) a new v w =
      let ih = AllServed-set_box boxes a new v.1 w in
      elim (Bool-cases (x.addr == a)) [
        | inl here ↦ rw here (w, v.1)
        | inr other ↦ rw other (v.0, ih)
      ]

  IsServed-reopen :
      (mb : Mailbox) (chan handle : ℕ) → IsServed blank mb → IsServed blank (reopen mb chan handle)
  unfolding reopen
  IsServed-reopen mb chan handle v = record { ring_valid = v.ring_valid; idle_empty = v.idle_empty }

  AllServed-reuse :
      (boxes : Boxes) (class oid : Bytes) (chan handle a : ℕ) (boxes' : Boxes)
      → AllServed boxes
      → reuse boxes class oid chan handle ≡ some (a, boxes')
      → AllServed boxes'
  unfolding reuse
  AllServed-reuse [] class oid chan handle a boxes' v h = cc
  AllServed-reuse (x ∷ boxes) class oid chan handle a boxes' v h =
      elim (Bool-cases (is_for class oid x)) [
        | inl here ↦
            let e : boxes' ≡ reopen x chan handle ∷ boxes = ground arith in
            rw e (IsServed-reopen x chan handle v.0, v.1)
        | inr other ↦ elim (Option-cases (reuse boxes class oid chan handle)) [
          | inl stop ↦ ground arith
          | inr ((b, rest), found) ↦
              let e : boxes' ≡ x ∷ rest = ground arith in
              rw e (v.0, AllServed-reuse boxes class oid chan handle b rest v.1 found)
        ]
      ]

  AllServed-get_mailbox :
      (empty_ring : Ring Slot) (memory : Bool) (boxes : Boxes) (class oid : Bytes)
      (chan handle a : ℕ) (boxes' : Boxes)
      → IsValid empty_ring
      → contents blank empty_ring ≡ []
      → AllServed boxes
      → get_mailbox empty_ring memory boxes class oid chan handle ≡ some (a, boxes')
      → AllServed boxes'
  unfolding get_mailbox new_box
  AllServed-get_mailbox empty_ring memory boxes class oid chan handle a boxes' rv re v h =
      elim (Option-cases (reuse boxes class oid chan handle)) [
        | inr ((b, rest), found) ↦
            let e : boxes' ≡ rest = ground arith in
            rw e (AllServed-reuse boxes class oid chan handle b rest v found)
        | inl new ↦ elim (Bool-cases memory) [
          | inr out ↦ ground arith
          | inl room ↦
              let made = new_box empty_ring (next_addr boxes) class oid chan handle ∷ boxes in
              let e : boxes' ≡ made = ground arith in
              subst AllServed (sym e) (record { ring_valid = rv; idle_empty = λ _. re }, v)
        ]
      ]

  AllServed-use_known :
      (rt : Router) (c : Call) (handle : ℕ) (known : Option Mailbox)
      → ((mb : Mailbox) → known ≡ some mb → IsServed blank mb)
      → AllServed rt.boxes
      → AllServed (use_known rt c handle known).1.boxes
  unfolding use_known
  AllServed-use_known rt c handle none w v = v
  AllServed-use_known rt c handle (some mb) w v =
      let served = w mb refl in
      AllServed-set_box rt.boxes mb.addr (record mb { dispatch_chan = c.chan; handle = handle }) v
        (record { ring_valid = served.ring_valid; idle_empty = served.idle_empty })

  AllServed-use_found :
      (rt : Router) (idx : ℕ) (found : Option (ℕ × Boxes))
      → ((a : ℕ) (boxes : Boxes) → found ≡ some (a, boxes) → AllServed boxes)
      → AllServed rt.boxes
      → AllServed (use_found rt idx found).1.boxes
  unfolding use_found
  AllServed-use_found rt idx none w v = v
  AllServed-use_found rt idx (some (a, boxes)) w v = w a boxes refl

  -- Finding or making the mailbox of a call keeps every mailbox served.
  pub AllServed-open_box :
      (env : Env) (rt : Router) (c : Call) (handle : ℕ)
      → IsValid env.empty_ring
      → contents blank env.empty_ring ≡ []
      → AllServed rt.boxes
      → AllServed (open_box env rt c handle).1.boxes
  unfolding open_box
  AllServed-open_box env rt c handle rv re v =
      let idx = handle % 2 ^ 16 in
      let known = box_at rt.boxes (mb_of rt.table idx) in
      let found = get_mailbox env.empty_ring env.box_memory rt.boxes c.class c.oid c.chan handle in
      elim (Bool-cases (is_open known)) [
        | inl open_now ↦ rw open_now (
            AllServed-use_known rt c handle known
              (λ mb h. AllServed-box_at rt.boxes (mb_of rt.table idx) mb v h) v)
        | inr shut ↦ rw shut (
            AllServed-use_found rt idx found
              (λ a boxes h.
                AllServed-get_mailbox env.empty_ring env.box_memory rt.boxes c.class c.oid c.chan
                  handle a boxes rv re v h)
              v)
      ]

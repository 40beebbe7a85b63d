-- ===== src/ObjTable/Stale.antt =====
-- Handles of actors that are gone: `o9_objtab_unregister` makes them invalid, and they stay so.
use objective_9c.Prelude.{
  ℕ, zero, suc, ◌+◌, ◌%◌, ◌^◌, ◌≤◌, ◌<◌, ◌≡◌, refl, sym, ap, subst, ◌∙◌, ◌≢◌, inl, inr, List, [],
  ◌∷◌, Option, some, none, Bool, true, false, arith, Bytes, length, get_elem?, set, if◌then◌else◌,
  get_elem?-set_self, get_elem?-set_ne, Option-cases, Bool-cases, ℕ_discrete,
}
use objective_9c.Prelude.Count.{lt-length_of_get}
use objective_9c.ObjTable.{
  ObjEntry, ObjTab, max_objects, is_named, Found, hit, miss, probe, first_of_free, claim, refresh,
  release, place, register, inited_table, home, renew, occupy, free_entry, handle_of, next_gen,
  resolve, unregister_from, unregister,
}
use objective_9c.ObjTable.Handle.{
  entries-inited_table, IsSized, IsYoung, is_named-some, handle_of_parts,
}
use objective_9c.ObjTable.Probe.{Slot-cases}
use objective_9c.ObjTable.Again.{register-Lands}

-- The loop of `o9_objtab_unregister` stops where a search for the name stops.
unregister_from-hit :
    (t : ObjTab) (h : ℕ) (class oid : Bytes) (rounds step i : ℕ) (free : Option ℕ) (e : ObjEntry)
    → probe t h class oid rounds step free ≡ hit i
    → get_elem? t.entries i ≡ some e
    → (unregister_from t h class oid rounds step).entries ≡ set t.entries i (release e)
unfolding probe unregister_from
unregister_from-hit t h class oid zero step i free e p at_i = cc
unregister_from-hit t h class oid (suc rounds) step i free e p at_i =
    let idx = (h + step) % max_objects in
    elim (Slot-cases (get_elem? t.hash_tab idx)) [
      | inl s ↦ no_hit (rw (s, probe) at p)
      | inr (inl s) ↦ no_hit (rw (s, probe) at p)
      | inr (inr (inl s)) ↦
          rw (s, unregister_from)
            (unregister_from-hit t h class oid rounds (step + 1) i (first_of_free free idx) e
              (rw (s, probe) at p) at_i)
      | inr (inr (inr (j, s))) ↦ elim (Bool-cases (is_named class oid (get_elem? t.entries j))) [
        | inl named ↦
            let here : j ≡ i = same_hit (rw (s, probe, named) at p) in
            let at_j : get_elem? t.entries j ≡ some e = rw here at_i in
            let named' : is_named class oid (some e) ≡ true = rw at_j at named in
            rw (s, unregister_from, at_j, named') (ap (λ k. set t.entries k (release e)) here)
        | inr other ↦
            rw (s, unregister_from, other)
              (unregister_from-hit t h class oid rounds (step + 1) i free e
                (rw (s, probe, other) at p) at_i)
      ]
    ]
  where
    no_hit : {P : Type 0} {m : Option ℕ} {k : ℕ} → miss m ≡ hit k → P
    no_hit q = cc

    same_hit : {a b : ℕ} → hit a ≡ hit b → a ≡ b
    same_hit q = ground arith

-- a handle whose entry has another generation, or is not active, names nothing
resolve-dead :
    (t : ObjTab) (i g : ℕ) (e : ObjEntry)
    → g < 2 ^ 16
    → i < max_objects
    → get_elem? t.entries i ≡ some e
    → e.active ≡ false
    → resolve t (handle_of g i) ≡ none
unfolding resolve
resolve-dead t i g e hg hi at_i idle =
    let (low, high) = handle_of_parts g i hg hi in rw (low, at_i, idle) (ground arith)

-- After an actor is unregistered, the handle that its registration returned, not 0, names nothing,
-- if both parts of the name have less than 64 bytes, the table has its 256 entries, and their
-- generations are below 2 ^ 16 - 1.
pub unregister_revokes :
    (t : ObjTab) (class oid : Bytes) (inst chan : ℕ)
    → IsSized t
    → IsYoung t
    → length class < 64
    → length oid < 64
    → (register t class oid inst chan).0 ≢ 0
    → resolve
        (unregister (register t class oid inst chan).1 class oid)
        (register t class oid inst chan).0
      ≡ none
unfolding unregister release
unregister_revokes t class oid inst chan sized young hc ho nz =
    let l = register-Lands t class oid inst chan sized hc ho nz in
    let u = (register t class oid inst chan).1 in
    let fits : l.old.gen + 1 < 2 ^ 16 = young l.index l.old l.old_stored in
    let gens = l.gen_bound in
    let below = lt-length_of_get t.entries l.index l.old l.old_stored in
    let inside = lt-length_of_get u.entries l.index l.entry l.stored in
    let gone =
      unregister_from-hit u (home class oid) class oid max_objects 0 l.index none l.entry l.found
        l.stored in
    let at_i : get_elem? (unregister_from u (home class oid) class oid max_objects 0).entries
          l.index
        ≡ some (release l.entry) =
      ap (λ es. get_elem? es l.index) gone
      ∙ get_elem?-set_self u.entries l.index (release l.entry) inside in
    rw (l.ready, l.handle_is)
      (resolve-dead (unregister_from u (home class oid) class oid max_objects 0) l.index l.entry.gen
        (release l.entry) (omega arith) (omega arith) at_i refl)

-- What any call does to an entry's generation: it stays or grows by one, unless it wraps.
Grows : List ObjEntry → List ObjEntry → Type 0
Grows es fs =
    (i : ℕ) (e : ObjEntry)
    → get_elem? es i ≡ some e
    → (f : ObjEntry) × (get_elem? fs i ≡ some f)
      × (e.gen + 1 < 2 ^ 32 → (e.gen ≤ f.gen) × (f.gen ≤ e.gen + 1))

Grows-set :
    (es : List ObjEntry) (k : ℕ) (x new : ObjEntry)
    → get_elem? es k ≡ some x
    → (x.gen + 1 < 2 ^ 32 → (x.gen ≤ new.gen) × (new.gen ≤ x.gen + 1))
    → Grows es (set es k new)
unfolding Grows
Grows-set es k x new at_k step i e at_i = elim (ℕ_discrete i k) [
  | yes same ↦
      let at_i' : get_elem? es i ≡ some x = rw same at_k in
      let eq : x ≡ e = cc in
      (new, rw same (get_elem?-set_self es k new (lt-length_of_get es k x at_k)), rw eq at step)
  | no ne ↦ (e, get_elem?-set_ne es {i = k} {j = i} new (λ q. ne (sym q)) ∙ at_i, λ h. omega arith)
]

Grows-refl : (es : List ObjEntry) → Grows es es
unfolding Grows
Grows-refl es i e at_i = (e, at_i, λ h. omega arith)

place-Grows :
    (t : ObjTab) (f : Found) (class oid : Bytes) (inst chan : ℕ)
    → Grows t.entries (place t f class oid inst chan).1.entries
unfolding place renew occupy
place-Grows t (hit i) class oid inst chan = elim (Option-cases (get_elem? t.entries i)) [
  | inl e ↦ rw (e, renew) (Grows-refl t.entries)
  | inr (x, e) ↦
      rw (e, renew)
        (Grows-set t.entries i x (refresh x inst chan) e (unfold refresh in λ h. omega arith))
]
place-Grows t (miss none) class oid inst chan = Grows-refl t.entries
place-Grows t (miss (some slot)) class oid inst chan =
    elim (Option-cases (free_entry t.entries 0)) [
      | inl full ↦ rw (full, place) (Grows-refl t.entries)
      | inr (i, free) ↦ elim (Option-cases (get_elem? t.entries i)) [
        | inl e ↦ rw (free, place, e, occupy) (Grows-refl t.entries)
        | inr (x, e) ↦
            rw (free, place, e, occupy)
              (Grows-set t.entries i x (claim x class oid inst chan) e
                (unfold claim next_gen in λ h. ground arith))
      ]
    ]

register-Grows :
    (t : ObjTab) (class oid : Bytes) (inst chan : ℕ)
    → Grows t.entries (register t class oid inst chan).1.entries
unfolding register
register-Grows t class oid inst chan =
    let t0 = inited_table t in
    let found = probe t0 (home class oid) class oid max_objects 0 none in
    subst (λ es. Grows es (place t0 found class oid inst chan).1.entries) (entries-inited_table t)
      (place-Grows t0 found class oid inst chan)

unregister_from-Grows :
    (t : ObjTab) (h : ℕ) (class oid : Bytes) (rounds step : ℕ)
    → Grows t.entries (unregister_from t h class oid rounds step).entries
unfolding unregister_from
unregister_from-Grows t h class oid zero step = Grows-refl t.entries
unregister_from-Grows t h class oid (suc rounds) step =
    elim (Slot-cases (get_elem? t.hash_tab ((h + step) % max_objects))) [
      | inl s ↦ rw (s, unregister_from) (Grows-refl t.entries)
      | inr (inl s) ↦ rw (s, unregister_from) (Grows-refl t.entries)
      | inr (inr (inl s)) ↦
          rw (s, unregister_from) (unregister_from-Grows t h class oid rounds (step + 1))
      | inr (inr (inr (j, s))) ↦ elim (Bool-cases (is_named class oid (get_elem? t.entries j))) [
        | inl named ↦
            let (e, at_j, _, _, _) = is_named-some class oid (get_elem? t.entries j) named in
            let named' : is_named class oid (some e) ≡ true = rw at_j at named in
            rw (s, unregister_from, at_j, named')
              (Grows-set t.entries j e (release e) at_j (unfold release in λ h. omega arith))
        | inr other ↦
            rw (s, unregister_from, other) (unregister_from-Grows t h class oid rounds (step + 1))
      ]
    ]

unregister-Grows :
    (t : ObjTab) (class oid : Bytes) → Grows t.entries (unregister t class oid).entries
unfolding unregister
unregister-Grows t class oid =
    either (unregister_from t (home class oid) class oid max_objects 0) t t.inited
      (unregister_from-Grows t (home class oid) class oid max_objects 0) (Grows-refl t.entries)
  where
    either :
        (u v : ObjTab) (b : Bool)
        → Grows t.entries u.entries
        → Grows t.entries v.entries
        → Grows t.entries (if b then u else v).entries
    either u v true g h = g
    either u v false g h = h

-- any sequence of registrations and unregistrations
pub data TabOp : Type 0 where
  reg : Bytes → Bytes → ℕ → ℕ → TabOp
  unreg : Bytes → Bytes → TabOp

unfoldable pub run : ObjTab → List TabOp → ObjTab
run t [] = t
run t (reg class oid inst chan ∷ ops) = run (register t class oid inst chan).1 ops
run t (unreg class oid ∷ ops) = run (unregister t class oid) ops

-- Once an entry has gone past a handle's generation, no sequence of registrations and
-- unregistrations makes the handle valid again, unless it is long enough to wrap 32 bits.
-- The entry's index is below 256 and the generation below 2 ^ 16.
pub stale_forever :
    (ops : List TabOp) (t : ObjTab) (i g : ℕ) (e : ObjEntry)
    → g < 2 ^ 16
    → i < max_objects
    → get_elem? t.entries i ≡ some e
    → g < e.gen
    → e.gen + length ops < 2 ^ 32
    → resolve (run t ops) (handle_of g i) ≡ none
unfolding run Grows
stale_forever [] t i g e hg hi at_i older room =
    unfold resolve in let (low, high) = handle_of_parts g i hg hi in rw (low, at_i) (ground arith)
stale_forever (reg class oid inst chan ∷ ops) t i g e hg hi at_i older room =
    let (f, at_f, grows) = register-Grows t class oid inst chan i e at_i in
    let (up, by_one) = grows (omega arith) in
    stale_forever ops (register t class oid inst chan).1 i g f hg hi at_f (omega arith)
      (omega arith)
stale_forever (unreg class oid ∷ ops) t i g e hg hi at_i older room =
    let (f, at_f, grows) = unregister-Grows t class oid i e at_i in
    let (up, by_one) = grows (omega arith) in
    stale_forever ops (unregister t class oid) i g f hg hi at_f (omega arith) (omega arith)

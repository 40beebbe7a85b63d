-- ===== src/ObjTable/Names.antt =====
-- Names of 64 bytes or more: strncpy cuts what an entry stores, strcmp compares the whole name.
use objective_9c.Prelude.{
  ℕ, zero, suc, ◌+◌, ◌-◌, ◌%◌, ◌≤◌, ◌<◌, ◌≡◌, refl, sym, ap, subst, ◌∙◌, ◌≢◌, ◌⊎◌, inl, inr, List,
  [], ◌∷◌, Option, some, none, true, false, arith, Bytes, length, length-take, get_elem?, set,
  get_elem?-set_self, get_elem?-set_ne, Option-cases, Bool-cases, if_ind, ℕ_discrete, replicate,
}
use objective_9c.Prelude.Count.{lt-length_of_get}
use objective_9c.ObjTable.{
  ObjEntry, ObjTab, max_objects, is_named, Found, hit, miss, probe, claim, refresh, release, place,
  register, inited_table, home, renew, occupy, free_entry, handle_of, next_gen, unregister_from,
  unregister, empty_table,
}
use objective_9c.ObjTable.Handle.{entries-inited_table, is_named-some, probe-hit, free_entry-get}
use objective_9c.ObjTable.Probe.{Slot-cases}
use objective_9c.ObjTable.Stale.{TabOp, reg, unreg, run}

-- what the arrays of an entry have room for
abbrev Short : ObjEntry → Type 0
Short e = (length e.class < 64) × (length e.oid < 64)

abbrev AllShort : List ObjEntry → Type 0
AllShort es = (i : ℕ) (e : ObjEntry) → get_elem? es i ≡ some e → Short e

AllShort-set :
    (es : List ObjEntry) (k : ℕ) (x : ObjEntry)
    → k < length es
    → AllShort es
    → Short x
    → AllShort (set es k x)
AllShort-set es k x inside all short i e at_i = elim (ℕ_discrete k i) [
  | yes same ↦
      let there : some x ≡ some e =
        sym (get_elem?-set_self es k x inside)
        ∙ subst (λ z. get_elem? (set es k x) z ≡ some e) (sym same) at_i in
      let eq : x ≡ e = cc in subst Short eq short
  | no ne ↦ all i e (sym (get_elem?-set_ne es {i = k} {j = i} x ne) ∙ at_i)
]

claim-Short :
    (e : ObjEntry) (class oid : Bytes) (inst chan : ℕ) → Short (claim e class oid inst chan)
unfolding claim
claim-Short e class oid inst chan =
    (omega (arith, length-take 63 class), omega (arith, length-take 63 oid))

place-AllShort :
    (t : ObjTab) (f : Found) (class oid : Bytes) (inst chan : ℕ)
    → AllShort t.entries
    → AllShort (place t f class oid inst chan).1.entries
unfolding place renew occupy
place-AllShort t (hit i) class oid inst chan all = elim (Option-cases (get_elem? t.entries i)) [
  | inl e ↦ rw (e, renew) all
  | inr (x, e) ↦
      rw (e, renew)
        (AllShort-set t.entries i (refresh x inst chan) (lt-length_of_get t.entries i x e) all
          (unfold refresh in all i x e))
]
place-AllShort t (miss none) class oid inst chan all = all
place-AllShort t (miss (some slot)) class oid inst chan all =
    elim (Option-cases (free_entry t.entries 0)) [
      | inl full ↦ rw (full, place) all
      | inr (i, free) ↦ elim (Option-cases (get_elem? t.entries i)) [
        | inl e ↦ rw (free, place, e, occupy) all
        | inr (x, e) ↦
            rw (free, place, e, occupy)
              (AllShort-set t.entries i (claim x class oid inst chan)
                (lt-length_of_get t.entries i x e) all (claim-Short x class oid inst chan))
      ]
    ]

register-AllShort :
    (t : ObjTab) (class oid : Bytes) (inst chan : ℕ)
    → AllShort t.entries
    → AllShort (register t class oid inst chan).1.entries
unfolding register
register-AllShort t class oid inst chan all =
    let t0 = inited_table t in
    place-AllShort t0 (probe t0 (home class oid) class oid max_objects 0 none) class oid inst chan
      (subst AllShort (sym (entries-inited_table t)) all)

unregister_from-AllShort :
    (t : ObjTab) (h : ℕ) (class oid : Bytes) (rounds step : ℕ)
    → AllShort t.entries
    → AllShort (unregister_from t h class oid rounds step).entries
unfolding unregister_from
unregister_from-AllShort t h class oid zero step all = all
unregister_from-AllShort t h class oid (suc rounds) step all =
    elim (Slot-cases (get_elem? t.hash_tab ((h + step) % max_objects))) [
      | inl s ↦ rw (s, unregister_from) all
      | inr (inl s) ↦ rw (s, unregister_from) all
      | inr (inr (inl s)) ↦
          rw (s, unregister_from) (unregister_from-AllShort t h class oid rounds (step + 1) all)
      | inr (inr (inr (j, s))) ↦ elim (Bool-cases (is_named class oid (get_elem? t.entries j))) [
        | inl named ↦
            let (e, at_j, _, _, _) = is_named-some class oid (get_elem? t.entries j) named in
            let named' : is_named class oid (some e) ≡ true = rw at_j at named in
            rw (s, unregister_from, at_j, named')
              (AllShort-set t.entries j (release e) (lt-length_of_get t.entries j e at_j) all
                (unfold release in all j e at_j))
        | inr other ↦
            rw (s, unregister_from, other)
              (unregister_from-AllShort t h class oid rounds (step + 1) all)
      ]
    ]

run-AllShort : (ops : List TabOp) (t : ObjTab) → AllShort t.entries → AllShort (run t ops).entries
unfolding run unregister
run-AllShort [] t all = all
run-AllShort (reg class oid inst chan ∷ ops) t all =
    run-AllShort ops (register t class oid inst chan).1
      (register-AllShort t class oid inst chan all)
run-AllShort (unreg class oid ∷ ops) t all = run-AllShort ops (unregister t class oid) (
    if_ind (λ (u : ObjTab). AllShort u.entries) t.inited
      (unregister_from t (home class oid) class oid max_objects 0) t
      (λ ready. unregister_from-AllShort t (home class oid) class oid max_objects 0 all)
      (λ blank. all))

module _ (t : ObjTab) (all : AllShort t.entries) (class oid : Bytes)
    (long : (64 ≤ length class) ⊎ (64 ≤ length oid)) where
  -- no entry carries the name
  unnamed : (i : ℕ) → is_named class oid (get_elem? t.entries i) ≡ false
  unnamed i = elim (Bool-cases (is_named class oid (get_elem? t.entries i))) [
    | inr differs ↦ differs
    | inl named ↦
        let (e, at_i, _, same_class, same_oid) =
          is_named-some class oid (get_elem? t.entries i) named in
        let (short_class, short_oid) = all i e at_i in
        let lc : length e.class ≡ length class = ap length same_class in
        let lo : length e.oid ≡ length oid = ap length same_oid in
        elim long [ inl h ↦ absurd (omega arith) | inr h ↦ absurd (omega arith) ]
  ]

  never_hit :
      (h rounds step : ℕ) (free : Option ℕ) (i : ℕ) → probe t h class oid rounds step free ≢ hit i
  never_hit h rounds step free i e =
      let clash : true ≡ false = sym (probe-hit t h class oid rounds step free i e) ∙ unnamed i in
      cc

  unregister_from_same : (h rounds step : ℕ) → unregister_from t h class oid rounds step ≡ t
  unfolding unregister_from
  unregister_from_same h zero step = refl
  unregister_from_same h (suc rounds) step =
      elim (Slot-cases (get_elem? t.hash_tab ((h + step) % max_objects))) [
        | inl s ↦ rw (s, unregister_from) refl
        | inr (inl s) ↦ rw (s, unregister_from) refl
        | inr (inr (inl s)) ↦ rw (s, unregister_from) (unregister_from_same h rounds (step + 1))
        | inr (inr (inr (j, s))) ↦
            rw (s, unregister_from, unnamed j) (unregister_from_same h rounds (step + 1))
      ]

-- a registration fails, or it takes an entry that was not in use
abbrev pub TakesFree : ObjTab → ℕ → Type 0
TakesFree t handle =
    (handle ≡ 0)
    ⊎ ((i : ℕ) × (e : ObjEntry) × (get_elem? t.entries i ≡ some e)
        × (e.active ≡ false)
        × (handle ≡ handle_of (next_gen e.gen) i))

place-TakesFree :
    (t : ObjTab) (f : Found) (class oid : Bytes) (inst chan : ℕ)
    → ((i : ℕ) → f ≢ hit i)
    → TakesFree t (place t f class oid inst chan).0
unfolding place occupy
place-TakesFree t (hit i) class oid inst chan missed = absurd (missed i refl)
place-TakesFree t (miss none) class oid inst chan missed = inl refl
place-TakesFree t (miss (some slot)) class oid inst chan missed =
    elim (Option-cases (free_entry t.entries 0)) [
      | inl full ↦ rw (full, place) (inl refl)
      | inr (i, free) ↦
          let (_, (e, found, idle)) = free_entry-get t.entries 0 i free in
          let z : i - 0 ≡ i = omega arith in
          let at_i : get_elem? t.entries i ≡ some e =
            subst (λ k. get_elem? t.entries k ≡ some e) z found in
          rw (free, place, at_i, occupy) (inr (i, e, at_i, idle, refl))
    ]

get_elem?-replicate :
    (n : ℕ) (x : ObjEntry) (i : ℕ) (e : ObjEntry) → get_elem? (replicate n x) i ≡ some e → x ≡ e
get_elem?-replicate zero x i e h = cc
get_elem?-replicate (suc n) x zero e h = cc
get_elem?-replicate (suc n) x (suc i) e h = get_elem?-replicate n x i e h

empty-AllShort : AllShort empty_table.entries
unfolding empty_table
empty-AllShort i e at_i =
    let x : ObjEntry = record {
      gen = 0;
      active = false;
      class = [];
      oid = [];
      inst = 0;
      dispatch_chan = 0;
      mb = 0;
    } in
    subst Short (get_elem?-replicate 256 x i e at_i) (omega arith, omega arith)

-- After any registrations and unregistrations, a name with a part of 64 bytes or more is found by no
-- search for it: unregistering it changes nothing, also where it was registered, and registering it again
-- fails or takes an entry that was not in use.
pub long_name_lost :
    (ops : List TabOp) (class oid : Bytes) (inst chan : ℕ)
    → (64 ≤ length class) ⊎ (64 ≤ length oid)
    → (unregister (run empty_table ops) class oid ≡ run empty_table ops)
      × TakesFree (run empty_table ops) (register (run empty_table ops) class oid inst chan).0
unfolding unregister register
long_name_lost ops class oid inst chan long = (
  if_ind (λ (u : ObjTab). u ≡ t) t.inited
      (unregister_from t (home class oid) class oid max_objects 0) t
      (λ ready. unregister_from_same t all class oid long (home class oid) max_objects 0)
      (λ blank. refl),
  subst (λ es. TakesFree (record t { entries = es }) (place t0 found class oid inst chan).0)
      (entries-inited_table t)
      (place-TakesFree t0 found class oid inst chan (λ i.
        never_hit t0 (subst AllShort (sym (entries-inited_table t)) all) class oid long
          (home class oid) max_objects 0 none i)),
)
  where
    t : ObjTab
    t = run empty_table ops

    all : AllShort t.entries
    all = run-AllShort ops empty_table empty-AllShort

    t0 : ObjTab
    t0 = inited_table t

    found : Found
    found = probe t0 (home class oid) class oid max_objects 0 none

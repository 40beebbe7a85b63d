-- ===== src/ObjTable/Again.antt =====
-- `o9_objtab_register` a second time: the same name gives the same handle.
use objective_9c.Prelude.{
  ℕ, zero, suc, ◌+◌, ◌-◌, ◌%◌, ◌≤◌, ◌<◌, ◌≡◌, refl, sym, ap, subst, ◌∙◌, ◌≢◌, inl, inr, List,
  Option, some, none, true, arith, Bytes, bytes_eq_self, take_all, length, get_elem?, set,
  if◌then◌else◌, get_elem?-set_self, get_elem?-set_ne, Option-cases, ℕ_discrete,
}
use objective_9c.Prelude.Count.{lt-length_of_get}
use objective_9c.ObjTable.{
  ObjEntry, ObjTab, max_objects, is_named, Found, hit, miss, probe, first_of_free, claim, refresh,
  place, register, inited_table, home, renew, occupy, free_entry, handle_of, next_gen,
}
use objective_9c.ObjTable.Handle.{
  inited_table-IsSized, entries-inited_table, renew-some, occupy-some, free_entry-get, probe-hit,
  is_named-some, IsSized,
}
use objective_9c.ObjTable.Probe.{Slot-cases, probe-claimed}

-- The search reads of the entries only whether they have the name.
probe-ext :
    (t u : ObjTab) (h : ℕ) (class oid : Bytes)
    → u.hash_tab ≡ t.hash_tab
    → ((j : ℕ)
        → is_named class oid (get_elem? u.entries j) ≡ is_named class oid (get_elem? t.entries j))
    → (rounds step : ℕ) (free : Option ℕ)
    → probe u h class oid rounds step free ≡ probe t h class oid rounds step free
unfolding probe
probe-ext t u h class oid tab same zero step free = refl
probe-ext t u h class oid tab same (suc rounds) step free =
    let idx = (h + step) % max_objects in
    let same_slot : get_elem? u.hash_tab idx ≡ get_elem? t.hash_tab idx =
      ap (λ z. get_elem? z idx) tab in
    elim (Slot-cases (get_elem? t.hash_tab idx)) [
      | inl e ↦ rw (same_slot, e, probe)
      | inr (inl e) ↦ rw (same_slot, e, probe)
      | inr (inr (inl e)) ↦
          rw (same_slot, e, probe)
            (probe-ext t u h class oid tab same rounds (step + 1) (first_of_free free idx))
      | inr (inr (inr (j, e))) ↦
          rw (same_slot, e, probe, same j)
            (ap (λ z. if is_named class oid (get_elem? t.entries j) then hit j else z)
              (probe-ext t u h class oid tab same rounds (step + 1) free))
    ]

probe-lt :
    (t : ObjTab) (h : ℕ) (class oid : Bytes) (rounds step k : ℕ) (free : Option ℕ)
    → ((j : ℕ) → free ≡ some j → j < max_objects)
    → probe t h class oid rounds step free ≡ miss (some k)
    → k < max_objects
unfolding probe first_of_free
probe-lt t h class oid zero step k free ok e = ok k (ground arith)
probe-lt t h class oid (suc rounds) step k none ok e =
    let idx = (h + step) % max_objects in
    let lt : idx < max_objects = omega arith in
    ground (
      arith,
      probe-lt t h class oid rounds (step + 1) k none ok,
      probe-lt t h class oid rounds (step + 1) k (some idx) (λ j q. ground arith),
    )
probe-lt t h class oid (suc rounds) step k (some m) ok e =
    ground (arith, ok k, probe-lt t h class oid rounds (step + 1) k (some m) ok)

named-claim :
    (e : ObjEntry) (class oid : Bytes) (inst chan : ℕ)
    → length class < 64
    → length oid < 64
    → is_named class oid (some (claim e class oid inst chan)) ≡ true
unfolding claim is_named
named-claim e class oid inst chan hc ho =
    rw
      (
        take_all 63 class (omega arith),
        take_all 63 oid (omega arith),
        bytes_eq_self class,
        bytes_eq_self oid,
      )
      refl

inited-inited_table : (t : ObjTab) → (inited_table t).inited ≡ true
unfolding inited_table
inited-inited_table t = ground arith

inited_table-id : (t : ObjTab) → t.inited ≡ true → inited_table t ≡ t
unfolding inited_table
inited_table-id t h = rw h

-- A table in which a search for the name ends at an entry, the handle of that entry, and what the
-- entry was among the entries `before`.
pub record Lands (before : List ObjEntry) (t : ObjTab) (handle : ℕ) (class oid : Bytes)
    : Type 0 where
  pub index : ℕ
  pub entry : ObjEntry
  pub found : probe t (home class oid) class oid max_objects 0 none ≡ hit index
  pub stored : get_elem? t.entries index ≡ some entry
  pub handle_is : handle ≡ handle_of entry.gen index
  pub ready : t.inited ≡ true
  pub old : ObjEntry
  pub old_stored : get_elem? before index ≡ some old
  pub gen_bound : entry.gen ≤ old.gen + 1

module _ (t : ObjTab) (class oid : Bytes) (inst chan : ℕ) (ready : t.inited ≡ true) where
  renew-Lands :
      (i : ℕ)
      → probe t (home class oid) class oid max_objects 0 none ≡ hit i
      → Lands t.entries (renew t i inst chan).1 (renew t i inst chan).0 class oid
  unfolding refresh is_named
  renew-Lands i p =
      let named = probe-hit t (home class oid) class oid max_objects 0 none i p in
      let (e, at_i, _, _, _) = is_named-some class oid (get_elem? t.entries i) named in
      let e' = refresh e inst chan in
      let t' = record t { entries = set t.entries i e' } in
      let inside = lt-length_of_get t.entries i e at_i in
      let same = λ (j : ℕ).
        elim (ℕ_discrete j i)
          as (λ _.
            is_named class oid (get_elem? t'.entries j)
            ≡ is_named class oid (get_elem? t.entries j)) [
              | yes q ↦ rw (q, get_elem?-set_self t.entries i e' inside, at_i) refl
              | no ne ↦ rw (get_elem?-set_ne t.entries {i = i} {j = j} e' (λ q. ne (sym q)))
            ] in
      rw (renew-some t i inst chan e at_i) (record {
        index = i;
        entry = e';
        found = probe-ext t t' (home class oid) class oid refl same max_objects 0 none ∙ p;
        stored = get_elem?-set_self t.entries i e' inside;
        handle_is = refl;
        ready = ready;
        old = e;
        old_stored = at_i;
        gen_bound = omega arith;
      })

  occupy-Lands :
      (slot i : ℕ) (e : ObjEntry)
      → IsSized t
      → length class < 64
      → length oid < 64
      → probe t (home class oid) class oid max_objects 0 none ≡ miss (some slot)
      → get_elem? t.entries i ≡ some e
      → Lands t.entries
          (occupy t slot i class oid inst chan).1
          (occupy t slot i class oid inst chan).0
          class
          oid
  occupy-Lands slot i e sized hc ho p at_i =
      let x = claim e class oid inst chan in
      let named = named-claim e class oid inst chan hc ho in
      let inside = lt-length_of_get t.entries i e at_i in
      let lt = probe-lt t (home class oid) class oid max_objects 0 slot none (λ j q. cc) p in
      rw (occupy-some t slot i class oid inst chan e at_i) (record {
        index = i;
        entry = x;
        found =
            probe-claimed t (home class oid) class oid slot i x named inside (omega arith)
              max_objects 0 p;
        stored = get_elem?-set_self t.entries i x inside;
        handle_is = unfold claim in refl;
        ready = ready;
        old = e;
        old_stored = at_i;
        gen_bound = unfold claim next_gen in ground arith;
      })

  place-Lands :
      (f : Found)
      → IsSized t
      → length class < 64
      → length oid < 64
      → probe t (home class oid) class oid max_objects 0 none ≡ f
      → (place t f class oid inst chan).0 ≢ 0
      → Lands t.entries
          (place t f class oid inst chan).1
          (place t f class oid inst chan).0
          class
          oid
  unfolding place
  place-Lands (hit i) sized hc ho p nz = renew-Lands i p
  place-Lands (miss none) sized hc ho p nz = absurd (nz refl)
  place-Lands (miss (some slot)) sized hc ho p nz = elim (Option-cases (free_entry t.entries 0)) [
    | inl full ↦ absurd (nz (rw (full, place) refl))
    | inr (i, free) ↦
        let (_, (e, at_z, idle)) = free_entry-get t.entries 0 i free in
        let z : i - 0 ≡ i = omega arith in
        rw (free, place) (occupy-Lands slot i e sized hc ho p (rw z at at_z))
  ]

pub register-Lands :
    (t : ObjTab) (class oid : Bytes) (inst chan : ℕ)
    → IsSized t
    → length class < 64
    → length oid < 64
    → (register t class oid inst chan).0 ≢ 0
    → Lands t.entries
        (register t class oid inst chan).1
        (register t class oid inst chan).0
        class
        oid
unfolding register
register-Lands t class oid inst chan sized hc ho nz =
    let t0 = inited_table t in
    let found = probe t0 (home class oid) class oid max_objects 0 none in
    let r = place t0 found class oid inst chan in
    subst (λ es. Lands es r.1 r.0 class oid) (entries-inited_table t)
      (place-Lands t0 class oid inst chan (inited-inited_table t) found
        (inited_table-IsSized t sized) hc ho refl nz)

-- On a table of 256 entries, registering a name with parts of less than 64 bytes a second time, after a registration that succeeded,
-- gives the same handle, whatever instance and channel come with it.
pub register_again :
    (t : ObjTab) (class oid : Bytes) (inst chan inst' chan' : ℕ)
    → IsSized t
    → length class < 64
    → length oid < 64
    → (register t class oid inst chan).0 ≢ 0
    → (register (register t class oid inst chan).1 class oid inst' chan').0
      ≡ (register t class oid inst chan).0
register_again t class oid inst chan inst' chan' sized hc ho nz =
    let l = register-Lands t class oid inst chan sized hc ho nz in
    let u = (register t class oid inst chan).1 in
    let second : (register u class oid inst' chan').0 ≡ handle_of l.entry.gen l.index =
      unfold register place in
      rw (inited_table-id u l.ready, l.found, renew-some u l.index inst' chan' l.entry l.stored)
        refl in
    second ∙ sym l.handle_is

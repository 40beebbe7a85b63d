-- ===== src/ObjTable/Handle.antt =====
-- Handles: what `o9_objtab_resolve` makes of the handle that `o9_objtab_register` returned.
use objective_9c.Prelude.{
  ℕ, zero, suc, ◌+◌, ◌-◌, ◌*◌, ◌/◌, ◌%◌, ◌^◌, ◌≤◌, ◌<◌, ◌≡◌, refl, ◌≢◌, inl, inr, List, [], ◌∷◌,
  Option, some, none, true, false, arith, Bytes, bytes_eq_sound, take_all, length, get_elem?, set,
  length-replicate, get_elem?-set_self, Option-cases, Bool-cases,
}
use objective_9c.Prelude.Count.{lt-length_of_get}
use objective_9c.ObjTable.{
  ObjEntry, ObjTab, max_objects, is_named, Found, hit, miss, probe, free_entry, handle_of, next_gen,
  refresh, claim, inited_table, renew, occupy, place, register, resolve, home, first_of_free,
  vacant, at_entry,
}

-- The generation and the index can be read back from a handle while the generation fits 16 bits.
pub handle_of_parts :
    (gen i : ℕ)
    → gen < 2 ^ 16
    → i < max_objects
    → (handle_of gen i % 2 ^ 16 ≡ i) × (handle_of gen i / 2 ^ 16 ≡ gen)
unfolding handle_of
handle_of_parts gen i hg hi = omega arith

-- all generations of the table are small enough for one more registration
abbrev pub IsYoung : ObjTab → Type 0
IsYoung t = (i : ℕ) (e : ObjEntry) → get_elem? t.entries i ≡ some e → e.gen + 1 < 2 ^ 16

abbrev pub IsSized : ObjTab → Type 0
IsSized t = (length t.entries ≡ max_objects) × (length t.hash_tab ≡ max_objects)

resolve-handle_of :
    (t : ObjTab) (i : ℕ) (e : ObjEntry)
    → get_elem? t.entries i ≡ some e
    → i < max_objects
    → e.gen < 2 ^ 16
    → e.active ≡ true
    → handle_of e.gen i ≢ 0
    → resolve t (handle_of e.gen i) ≡ some (i, e)
unfolding resolve
resolve-handle_of t i e at_i hi hg act nz =
    let (low, high) = handle_of_parts e.gen i hg hi in rw (low, at_i) (ground arith)

-- From its 65536th generation on, no handle of an entry resolves to it: the shift by 16 drops the
-- upper half of the generation.
pub resolve_of_old_entry :
    (t : ObjTab) (i : ℕ) (e : ObjEntry)
    → get_elem? t.entries i ≡ some e
    → i < max_objects
    → 2 ^ 16 ≤ e.gen
    → resolve t (handle_of e.gen i) ≡ none
unfolding resolve handle_of
resolve_of_old_entry t i e at_i hi hg =
    let low : ((e.gen * 2 ^ 16) % 2 ^ 32 + i % 2 ^ 16) % 2 ^ 16 ≡ i = omega arith in
    let high : ((e.gen * 2 ^ 16) % 2 ^ 32 + i % 2 ^ 16) / 2 ^ 16 < 2 ^ 16 = omega arith in
    rw low (ground arith)

module _ (t : ObjTab) (h : ℕ) (class oid : Bytes) where
  -- a hit is an active entry of the name
  pub probe-hit :
      (rounds step : ℕ) (free : Option ℕ) (i : ℕ)
      → probe t h class oid rounds step free ≡ hit i
      → is_named class oid (get_elem? t.entries i) ≡ true
  unfolding probe
  probe-hit zero step free i e = cc
  probe-hit (suc rounds) step free i e =
      let idx = (h + step) % max_objects in
      ground (
        arith,
        probe-hit rounds (step + 1) free i,
        probe-hit rounds (step + 1) (first_of_free free idx) i,
      )

pub free_entry-get :
    (es : List ObjEntry) (k i : ℕ)
    → free_entry es k ≡ some i
    → (k ≤ i) × ((e : ObjEntry) × (get_elem? es (i - k) ≡ some e) × (e.active ≡ false))
unfolding free_entry
free_entry-get [] k i h = cc
free_entry-get (e ∷ es) k i h = elim (Bool-cases e.active) [
  | inr idle ↦
      let same : k ≡ i = ground arith in
      let z : i - k ≡ 0 = omega arith in (omega arith, (e, rw z refl, idle))
  | inl busy ↦
      let (le, (x, at_x, idle)) = free_entry-get es (k + 1) i (ground arith) in
      let step : i - k ≡ suc (i - (k + 1)) = omega arith in (omega arith, (x, rw step at_x, idle))
]

pub is_named-some :
    (class oid : Bytes) (o : Option ObjEntry)
    → is_named class oid o ≡ true
    → (e : ObjEntry) × (o ≡ some e) × (e.active ≡ true) × (e.class ≡ class) × (e.oid ≡ oid)
unfolding is_named
is_named-some class oid none h = cc
is_named-some class oid (some e) h = (
  e,
  refl,
  ground arith,
  bytes_eq_sound e.class class (ground arith),
  bytes_eq_sound e.oid oid (ground arith),
)

-- What a caller may rely on of the entry behind a handle.
pub record Serves (class oid : Bytes) (inst chan : ℕ) (e : ObjEntry) : Type 0 where
  pub serves_class : e.class ≡ class
  pub serves_oid : e.oid ≡ oid
  pub serves_inst : inst ≢ 0 → e.inst ≡ inst
  pub serves_chan : chan ≢ 0 → e.dispatch_chan ≡ chan

abbrev pub Resolves : ℕ × ObjTab → Bytes → Bytes → ℕ → ℕ → Type 0
Resolves r class oid inst chan =
    (i : ℕ) × (e : ObjEntry) × (resolve r.1 r.0 ≡ some (i, e)) × Serves class oid inst chan e

pub renew-some :
    (t : ObjTab) (i inst chan : ℕ) (e : ObjEntry)
    → get_elem? t.entries i ≡ some e
    → renew t i inst chan
      ≡ (handle_of e.gen i, record t { entries = set t.entries i (refresh e inst chan) })
unfolding renew
renew-some t i inst chan e h = rw (h, renew)

pub occupy-some :
    (t : ObjTab) (slot i : ℕ) (class oid : Bytes) (inst chan : ℕ) (e : ObjEntry)
    → get_elem? t.entries i ≡ some e
    → occupy t slot i class oid inst chan ≡ (
      handle_of (next_gen e.gen) i,
      record t {
        entries = set t.entries i (claim e class oid inst chan);
        hash_tab = set t.hash_tab slot (at_entry i);
      },
    )
unfolding occupy
occupy-some t slot i class oid inst chan e h = rw (h, occupy)

module _ (t : ObjTab) (class oid : Bytes) (inst chan : ℕ) (sized : IsSized t)
    (young : IsYoung t) where
  renew-Resolves :
      (i : ℕ)
      → is_named class oid (get_elem? t.entries i) ≡ true
      → (renew t i inst chan).0 ≢ 0
      → Resolves (renew t i inst chan) class oid inst chan
  unfolding refresh
  renew-Resolves i named nz =
      let (e, at_i, act, c, o) = is_named-some class oid (get_elem? t.entries i) named in
      let inside = lt-length_of_get t.entries i e at_i in
      let e' = refresh e inst chan in
      let t' = record t { entries = set t.entries i e' } in
      let at_i' = get_elem?-set_self t.entries i e' inside in
      let eq = renew-some t i inst chan e at_i in
      let nz' : handle_of e.gen i ≢ 0 = rw eq at nz in
      let fits : e.gen + 1 < 2 ^ 16 = young i e at_i in
      rw eq (
        i,
        e',
        resolve-handle_of t' i e' at_i' (omega arith) (omega arith) act nz',
        record {
          serves_class = c;
          serves_oid = o;
          serves_inst = λ h. ground arith;
          serves_chan = λ h. ground arith;
        },
      )

  occupy-Resolves :
      (slot i : ℕ) (e : ObjEntry)
      → get_elem? t.entries i ≡ some e
      → length class < 64
      → length oid < 64
      → (occupy t slot i class oid inst chan).0 ≢ 0
      → Resolves (occupy t slot i class oid inst chan) class oid inst chan
  unfolding claim next_gen
  occupy-Resolves slot i e at_i hc ho nz =
      let inside = lt-length_of_get t.entries i e at_i in
      let e' = claim e class oid inst chan in
      let t' = record t {
        entries = set t.entries i e';
        hash_tab = set t.hash_tab slot (at_entry i);
      } in
      let at_i' = get_elem?-set_self t.entries i e' inside in
      let eq = occupy-some t slot i class oid inst chan e at_i in
      let nz' : handle_of (next_gen e.gen) i ≢ 0 = rw eq at nz in
      let fits : e.gen + 1 < 2 ^ 16 = young i e at_i in
      rw eq (
        i,
        e',
        resolve-handle_of t' i e' at_i' (omega arith) (ground arith) refl nz',
        record {
          serves_class = take_all 63 class (omega arith);
          serves_oid = take_all 63 oid (omega arith);
          serves_inst = λ h. refl;
          serves_chan = λ h. refl;
        },
      )

place-Resolves :
    (t : ObjTab) (class oid : Bytes) (inst chan : ℕ) (f : Found)
    → IsSized t
    → IsYoung t
    → length class < 64
    → length oid < 64
    → probe t (home class oid) class oid max_objects 0 none ≡ f
    → (place t f class oid inst chan).0 ≢ 0
    → Resolves (place t f class oid inst chan) class oid inst chan
unfolding place
place-Resolves t class oid inst chan (hit i) s y hc ho p nz =
    renew-Resolves t class oid inst chan s y i
      (probe-hit t (home class oid) class oid max_objects 0 none i p) nz
place-Resolves t class oid inst chan (miss none) s y hc ho p nz = absurd (nz refl)
place-Resolves t class oid inst chan (miss (some slot)) s y hc ho p nz =
    elim (Option-cases (free_entry t.entries 0)) [
      | inl full ↦ absurd (nz (rw (full, place) refl))
      | inr (i, free) ↦
          let (_, (e, at_z, idle)) = free_entry-get t.entries 0 i free in
          let z : i - 0 ≡ i = omega arith in
          let at_i : get_elem? t.entries i ≡ some e = rw z at at_z in
          rw (free, place)
            (occupy-Resolves t class oid inst chan s y slot i e at_i hc ho (rw (free, place) at nz))
    ]

pub inited_table-IsSized : (t : ObjTab) → IsSized t → IsSized (inited_table t)
unfolding inited_table
inited_table-IsSized t s = ground (arith, length-replicate max_objects vacant)

pub entries-inited_table : (t : ObjTab) → (inited_table t).entries ≡ t.entries
unfolding inited_table
entries-inited_table t = ground arith

-- A handle, not 0, that `o9_objtab_register` returns on a table of 256 entries resolves to an active entry of that name, with the
-- channel and the instance that were given, if the names have less than 64 bytes and every
-- generation is below 2 ^ 16 - 1.
pub register_resolve :
    (t : ObjTab) (class oid : Bytes) (inst chan : ℕ)
    → IsSized t
    → IsYoung t
    → length class < 64
    → length oid < 64
    → (register t class oid inst chan).0 ≢ 0
    → Resolves (register t class oid inst chan) class oid inst chan
unfolding register
register_resolve t class oid inst chan s y hc ho nz =
    let t0 = inited_table t in
    let s0 : IsSized t0 = inited_table-IsSized t s in
    let y0 : IsYoung t0 = rw (entries-inited_table t) y in
    place-Resolves t0 class oid inst chan (probe t0 (home class oid) class oid max_objects 0 none)
      s0 y0 hc ho refl nz

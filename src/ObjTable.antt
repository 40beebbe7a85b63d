-- ===== src/ObjTable.antt =====
-- The object table of o9_runtime.c: O9ObjEntry, o9_hash, o9_objtab_register, o9_objtab_resolve,
-- o9_objtab_unregister. It maps a class and an object id to a handle, the index of an entry below
-- the low 16 bits of its generation. `register` and `unregister` hold o9_objtab.lk from end to end.
-- Names are byte lists; strncpy cuts them to 63 bytes. u32int arithmetic is written modulo 2 ^ 32,
-- `& (O9_MAX_OBJECTS - 1)` as `% 256`, and `char` is signed, as in the compilers of Plan 9.
pub mod Handle
pub mod Probe
pub mod Again
pub mod Names
pub mod Stale
pub mod Tests
use Prim.Native.Nat.{bit_xor}
use objective_9c.Prelude.{
  ℕ, zero, suc, ◌+◌, ◌-◌, ◌*◌, ◌/◌, ◌%◌, ◌^◌, List, [], ◌∷◌, Option, some, none, Bool, true, false,
  not, ◌&&◌, ◌==◌, ltb, if◌then◌else◌, Bytes, bytes_eq, clip, length, get_elem?, set, replicate,
}

-- O9_MAX_OBJECTS
abbrev pub max_objects : ℕ
max_objects = 256

pub record ObjEntry : Type 0 where
  pub gen : ℕ
  pub active : Bool
  pub class : Bytes
  pub oid : Bytes
  pub inst : ℕ
  pub dispatch_chan : ℕ
  pub mb : ℕ

-- a cell of hash_tab: -1, -2 or an index
pub data HashSlot : Type 0 where
  vacant : HashSlot
  deleted : HashSlot
  at_entry : ℕ → HashSlot

pub record ObjTab : Type 0 where
  pub entries : List ObjEntry
  pub hash_tab : List HashSlot
  pub inited : Bool

-- `(int)*s` for a byte: a signed char, as a 32-bit word
signed_char : ℕ → ℕ
signed_char c = if ltb c 128 then c else c + 2 ^ 32 - 256

hash_from : ℕ → Bytes → ℕ
hash_from hash [] = hash
hash_from hash (c ∷ s) = hash_from ((hash * 33 + signed_char c) % 2 ^ 32) s

unfoldable pub hash : Bytes → ℕ
unfolding hash_from signed_char
hash s = hash_from 5381 s

-- the first place that is probed for a name
unfoldable pub home : Bytes → Bytes → ℕ
home class oid = bit_xor (hash class) (hash oid) % max_objects

-- the comparison of both loops: an active entry of that name
unfoldable pub is_named : Bytes → Bytes → Option ObjEntry → Bool
is_named class oid none = false
is_named class oid (some e) = e.active && (bytes_eq e.class class && bytes_eq e.oid oid)

pub data Found : Type 0 where
  hit : ℕ → Found
  miss : Option ℕ → Found

-- `if(free_slot < 0) free_slot = slot_idx`
unfoldable pub first_of_free : Option ℕ → ℕ → Option ℕ
first_of_free (some k) idx = some k
first_of_free none idx = some idx

-- the first loop of `o9_objtab_register`, with the rounds that are left
unfoldable pub probe : ObjTab → ℕ → Bytes → Bytes → ℕ → ℕ → Option ℕ → Found
probe t h class oid zero step free = miss free
probe t h class oid (suc rounds) step free =
    elim (get_elem? t.hash_tab ((h + step) % max_objects)) [
      | none ↦ miss free
      | some vacant ↦ miss (first_of_free free ((h + step) % max_objects))
      | some deleted ↦
          probe t h class oid rounds (step + 1) (first_of_free free ((h + step) % max_objects))
      | some (at_entry i) ↦
          let rest = probe t h class oid rounds (step + 1) free in
          if is_named class oid (get_elem? t.entries i) then hit i else rest
    ]

-- the second loop: the first entry that is not active
unfoldable pub free_entry : List ObjEntry → ℕ → Option ℕ
free_entry [] i = none
free_entry (e ∷ es) i = let rest = free_entry es (i + 1) in if e.active then rest else some i

-- (gen << 16) | (i & 0xFFFF), a u32int
unfoldable pub handle_of : ℕ → ℕ → ℕ
handle_of gen i = (gen * 2 ^ 16) % 2 ^ 32 + i % 2 ^ 16

-- gen++, and 1 in place of 0
unfoldable pub next_gen : ℕ → ℕ
next_gen gen = if (gen + 1) % 2 ^ 32 == 0 then 1 else (gen + 1) % 2 ^ 32

-- what a hit does to the entry: a nil argument leaves the field
unfoldable pub refresh : ObjEntry → ℕ → ℕ → ObjEntry
refresh e inst chan = record e {
  inst = if inst == 0 then e.inst else inst;
  dispatch_chan = if chan == 0 then e.dispatch_chan else chan;
}

unfoldable pub claim : ObjEntry → Bytes → Bytes → ℕ → ℕ → ObjEntry
claim e class oid inst chan = record {
  gen = next_gen e.gen;
  active = true;
  class = clip 63 class;
  oid = clip 63 oid;
  inst = inst;
  dispatch_chan = chan;
  mb = 0;
}

unfoldable pub inited_table : ObjTab → ObjTab
inited_table t =
    if t.inited then t else record t { hash_tab = replicate max_objects vacant; inited = true }

-- a write to entry `i` of both kinds, and the handle that is returned
unfoldable pub renew : ObjTab → ℕ → ℕ → ℕ → ℕ × ObjTab
renew t i inst chan = elim (get_elem? t.entries i) [
  | none ↦ (0, t)
  | some e ↦ (handle_of e.gen i, record t { entries = set t.entries i (refresh e inst chan) })
]

unfoldable pub occupy : ObjTab → ℕ → ℕ → Bytes → Bytes → ℕ → ℕ → ℕ × ObjTab
occupy t slot i class oid inst chan = elim (get_elem? t.entries i) [
  | none ↦ (0, t)
  | some e ↦ (
    handle_of (next_gen e.gen) i,
    record t {
      entries = set t.entries i (claim e class oid inst chan);
      hash_tab = set t.hash_tab slot (at_entry i);
    },
  )
]

unfoldable pub place : ObjTab → Found → Bytes → Bytes → ℕ → ℕ → ℕ × ObjTab
place t (hit i) class oid inst chan = renew t i inst chan
place t (miss none) class oid inst chan = (0, t)
place t (miss (some slot)) class oid inst chan = elim (free_entry t.entries 0) [
  | none ↦ (0, t)
  | some i ↦ occupy t slot i class oid inst chan
]

-- The handle, 0 for a failure, and the new table. Nil names are not modelled: the callers in
-- o9_router_submit hold them non-nil.
unfoldable pub register : ObjTab → Bytes → Bytes → ℕ → ℕ → ℕ × ObjTab
register t class oid inst chan =
    place (inited_table t) (probe (inited_table t) (home class oid) class oid max_objects 0 none)
      class oid inst chan

-- the index of the entry that a handle names, and the entry
unfoldable pub resolve : ObjTab → ℕ → Option (ℕ × ObjEntry)
resolve t handle =
    if handle == 0
    then none
    else if ltb (handle % 2 ^ 16) max_objects
    then elim (get_elem? t.entries (handle % 2 ^ 16)) [
      | none ↦ none
      | some e ↦ if e.active && e.gen == handle / 2 ^ 16 then some (handle % 2 ^ 16, e) else none
    ]
    else none

unfoldable pub release : ObjEntry → ObjEntry
release e = record e {
  active = false;
  gen = (e.gen + 1) % 2 ^ 32;
  dispatch_chan = 0;
  inst = 0;
  mb = 0;
}

-- the loop of `o9_objtab_unregister`
unfoldable pub unregister_from : ObjTab → ℕ → Bytes → Bytes → ℕ → ℕ → ObjTab
unregister_from t h class oid zero step = t
unregister_from t h class oid (suc rounds) step =
    elim (get_elem? t.hash_tab ((h + step) % max_objects)) [
      | none ↦ t
      | some vacant ↦ t
      | some deleted ↦ unregister_from t h class oid rounds (step + 1)
      | some (at_entry i) ↦
          let rest = unregister_from t h class oid rounds (step + 1) in
          let e = get_elem? t.entries i in
          if is_named class oid e
          then elim e [
            | none ↦ t
            | some x ↦ record t {
              entries = set t.entries i (release x);
              hash_tab = set t.hash_tab ((h + step) % max_objects) deleted;
            }
          ]
          else rest
    ]

unfoldable pub unregister : ObjTab → Bytes → Bytes → ObjTab
unregister t class oid =
    if t.inited then unregister_from t (home class oid) class oid max_objects 0 else t

-- zeroed static memory
unfoldable pub empty_table : ObjTab
empty_table = record {
  entries = replicate max_objects (record {
    gen = 0;
    active = false;
    class = [];
    oid = [];
    inst = 0;
    dispatch_chan = 0;
    mb = 0;
  });
  hash_tab = replicate max_objects (at_entry 0);
  inited = false;
}

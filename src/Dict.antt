-- ===== src/Dict.antt =====
-- The dictionaries of o9_runtime.c (the o9_dict functions), with O9Dict and O9DictEntry of o9.h: 64
-- buckets of chained entries. A cell stands for the bytes of a key or a value together with what they
-- point to, and carries its kind: an O9String*, a char*, or bytes (O9DICT_INT, O9DICT_DOUBLE and the
-- kinds without a case of their own). A nil pointer in a cell is none. The counts of references
-- and the freeing of what a cell points to are left out; the dictionary is not nil.
pub mod Lookup
pub mod Placed
pub mod Wire
pub mod Hex
pub mod Last
pub mod Round
pub mod Whole
pub mod Tests
use objective_9c.Prelude.{
  ℕ, zero, suc, ◌+◌, ◌*◌, ◌/◌, ◌%◌, ◌^◌, List, [], ◌∷◌, Option, some, none, Bool, true, false, ◌==◌,
  if◌then◌else◌, Bytes, bytes_eq, length, get_elem?, set, replicate, take, min,
}
use objective_9c.Prelude.Int.{ℤ, pos, negsuc}

pub data Cell : Type 0 where
  string_cell : Option Bytes → Cell
  cstr_cell : Option Bytes → Cell
  raw_cell : Bytes → Cell

pub data Kind : Type 0 where
  kind_string kind_cstr kind_int kind_double kind_other : Kind

pub record Entry : Type 0 where
  pub key : Cell
  pub val : Cell

abbrev pub Chain : Type 0
Chain = List Entry

pub record Dict : Type 0 where
  pub buckets : List Chain
  pub keysz : ℕ
  pub valsz : ℕ
  pub keykind : Kind
  pub valkind : Kind

-- `none` is the argument 0, or a negative one
unfoldable pub cell_size : Option ℕ → ℕ
cell_size none = 8
cell_size (some zero) = 8
cell_size (some (suc n)) = suc n

unfoldable pub init_typed : Option ℕ → Option ℕ → Kind → Kind → Dict
init_typed keysz valsz keykind valkind = record {
  buckets = replicate 64 [];
  keysz = cell_size keysz;
  valsz = cell_size valsz;
  keykind = keykind;
  valkind = valkind;
}

unfoldable pub init : Dict
init = init_typed (some 8) (some 8) kind_string kind_cstr

-- o9_dict_defaults: memory of zero bytes becomes a dictionary at its first use
unfoldable pub defaults : Dict → Dict
defaults d = if d.keysz == 0 then init else d

-- the cell of zero bytes
unfoldable pub zero_cell : Kind → ℕ → Cell
zero_cell kind_string n = string_cell none
zero_cell kind_cstr n = cstr_cell none
zero_cell kind_int n = raw_cell (replicate n 0)
zero_cell kind_double n = raw_cell (replicate n 0)
zero_cell kind_other n = raw_cell (replicate n 0)

-- o9_dict_cell_copy; none is a nil source
unfoldable pub cell_copy : Kind → ℕ → Option Cell → Cell
cell_copy kind n none = zero_cell kind n
cell_copy kind n (some c) = c

-- the loop of o9_dict_hash_bytes; a ulong has 32 bits
unfoldable pub hash_from : ℕ → Bytes → ℕ
hash_from h [] = h
hash_from h (c ∷ s) = hash_from ((h * 33 + c) % 2 ^ 32) s

unfoldable pub hash_bytes : Option Bytes → ℕ
hash_bytes none = 0
hash_bytes (some s) = hash_from 5381 s % 64

-- o9_string_data and o9_string_len of a cell
unfoldable pub string_bytes : Option Bytes → Bytes
string_bytes none = []
string_bytes (some s) = s

unfoldable pub hash_cell : Cell → ℕ
hash_cell (string_cell s) = hash_bytes (some (string_bytes s))
hash_cell (cstr_cell s) = hash_bytes s
hash_cell (raw_cell b) = hash_bytes (some b)

-- strcmp on two pointers, one of which may be nil
unfoldable pub cstr_eq : Option Bytes → Option Bytes → Bool
cstr_eq none none = true
cstr_eq none (some b) = false
cstr_eq (some a) none = false
cstr_eq (some a) (some b) = bytes_eq a b

-- the keys of one dictionary are of one kind
unfoldable pub keyeq : Cell → Cell → Bool
keyeq (string_cell a) (string_cell b) = bytes_eq (string_bytes a) (string_bytes b)
keyeq (string_cell a) (cstr_cell b) = false
keyeq (string_cell a) (raw_cell b) = false
keyeq (cstr_cell a) (string_cell b) = false
keyeq (cstr_cell a) (cstr_cell b) = cstr_eq a b
keyeq (cstr_cell a) (raw_cell b) = false
keyeq (raw_cell a) (string_cell b) = false
keyeq (raw_cell a) (cstr_cell b) = false
keyeq (raw_cell a) (raw_cell b) = bytes_eq a b

unfoldable pub chain_of : Option Chain → Chain
chain_of none = []
chain_of (some c) = c

-- d->buckets[h]
unfoldable pub bucket : Dict → ℕ → Chain
bucket d h = chain_of (get_elem? d.buckets h)

-- the loop of o9_dict_getp
unfoldable pub find : Chain → Cell → Option Cell
find [] k = none
find (e ∷ es) k = let rest = find es k in if keyeq e.key k then some e.val else rest

-- The value that the returned pointer shows.
unfoldable pub getp : Dict → Cell → Option Cell
getp d k = let d' = defaults d in find (bucket d' (hash_cell k)) k

-- the returned 0 or 1, and the bytes that `out` receives
unfoldable pub getv : Dict → Cell → Bool × Cell
getv d k =
    let d' = defaults d in
    elim (getp d' k) [ none ↦ (false, zero_cell d'.valkind d'.valsz) | some v ↦ (true, v) ]

-- the loop of o9_dict_setv: the chain with the value set, if it has the key
unfoldable pub assign : Chain → Cell → Cell → Option Chain
assign [] k v = none
assign (e ∷ es) k v =
    let rest : Option Chain = elim (assign es k v) [ none ↦ none | some es' ↦ some (e ∷ es') ] in
    if keyeq e.key k then some (record e { val = v } ∷ es) else rest

-- `memory` says whether the three allocations for an entry succeed.
unfoldable pub set_chain : Bool → Chain → Cell → Cell → Chain
set_chain memory c k v = elim (assign c k v) [
  | some c' ↦ c'
  | none ↦ if memory then record { key = k; val = v } ∷ c else c
]

unfoldable pub setv : Bool → Dict → Cell → Option Cell → Dict
setv memory d k val =
    let d' = defaults d in
    let h = hash_cell k in
    let v = cell_copy d'.valkind d'.valsz val in
    record d' { buckets = set d'.buckets h (set_chain memory (bucket d' h) k v) }

unfoldable pub is_some : Option Cell → Bool
is_some none = false
is_some (some v) = true

unfoldable pub hask : Dict → Cell → Bool
hask d k = is_some (getp d k)

unfoldable pub getsk : Dict → Option Bytes → Option Cell
getsk d key = getp d (string_cell key)

unfoldable pub hass : Dict → Option Bytes → Bool
hass d key = hask d (string_cell key)

-- the bytes of a vlong, the lowest first
unfoldable pub le_bytes : ℕ → ℕ → Bytes
le_bytes zero v = []
le_bytes (suc n) v = (v % 256) ∷ le_bytes n (v / 256)

-- o9_dict_int_key for a key of at most 8 bytes: `v` is the vlong as a number below 2 ^ 64
unfoldable pub int_key : Dict → ℕ → Cell
int_key d v = raw_cell (take d.keysz (le_bytes 8 v))

unfoldable pub geti : Dict → ℕ → Option Cell
geti d v = let d' = defaults d in getp d' (int_key d' v)

unfoldable pub hasi : Dict → ℕ → Bool
hasi d v = is_some (geti d v)

-- o9_dict_sets: the value is passed by address where it is a pointer
unfoldable pub sets : Bool → Dict → Option Bytes → Cell → Dict
sets memory d key val = let d' = defaults d in setv memory d' (string_cell key) (some val)

-- o9_dict_get, o9_dict_set and o9_dict_has, for the text of a C string; none is nil
unfoldable pub get : Dict → Option Bytes → Option Cell
get d none = none
get d (some key) = getp d (string_cell (some key))

unfoldable pub set_c : Bool → Dict → Option Bytes → Cell → Dict
set_c memory d none val = d
set_c memory d (some key) val = sets memory d (some key) val

unfoldable pub has : Dict → Option Bytes → Bool
has d none = false
has d (some key) = hass d (some key)

-- o9_dict_free leaves the buckets empty.
unfoldable pub free_dict : Dict → Dict
free_dict d = let d' = defaults d in record d' { buckets = replicate 64 [] }

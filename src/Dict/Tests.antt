-- ===== src/Dict/Tests.antt =====
-- A dictionary from strings to raw bytes.
use objective_9c.Prelude.{
  ℕ, ◌≡◌, refl, [], ◌∷◌, some, none, true, if◌then◌else◌, arith, codes, set, replicate, ◌++◌, zero,
  suc,
}
use objective_9c.Dict.{
  string_cell, raw_cell, kind_string, kind_other, Dict, Entry, init_typed, cell_size, defaults,
  setv, getp, keyeq, cell_copy, hash_cell, hash_bytes, hash_from, string_bytes, bucket, chain_of,
  assign, set_chain, Chain,
}
use objective_9c.Dict.Lookup.{IsValid, getp-setv}
use objective_9c.Dict.Placed.{init_typed-IsValid, setv-IsValid}
use objective_9c.Dict.Wire.{
  Numbers, serialize, deserialize, cell_text, entry_text, chain_text, buckets_text, c_string,
  hex_cell, hex_bytes, raw_text,
}
use objective_9c.Dict.Hex.{ReadsInts}
use objective_9c.Dict.Last.{later}
use objective_9c.Dict.Round.{SameType, AllChains, AllWritable, IsWritable}
use objective_9c.Dict.Whole.{deserialize-serialize}

-- a libc that prints the eight bytes as they are
abbrev plain : Numbers
plain = record { show_int = λ b. b; read_int = λ b. b; show_double = λ b. b; read_double = λ b. b }

plain-ReadsInts : ReadsInts plain
plain-ReadsInts b h = refl

abbrev fresh : Dict
fresh = init_typed (some 8) (some 2) kind_string kind_other

abbrev one : Dict
one = setv true fresh (string_cell (some (codes "a"))) (some (raw_cell (1 ∷ 255 ∷ [])))

fresh-IsValid : IsValid fresh
fresh-IsValid = init_typed-IsValid (some 8) (some 2) kind_string kind_other

one-IsValid : IsValid one
one-IsValid =
    setv-IsValid fresh (string_cell (some (codes "a"))) (some (raw_cell (1 ∷ 255 ∷ [])))
      fresh-IsValid

written : serialize plain one ≡ codes "a:0x01ff" ++ (b'\n' ∷ [])
unfolding serialize entry_text chain_text buckets_text cell_text c_string hex_cell hex_bytes
    raw_text setv init_typed cell_size defaults set_chain assign bucket chain_of hash_cell
    hash_bytes hash_from string_bytes cell_copy
written = refl

getp-setv_example :
    getp
      (setv true fresh (string_cell (some (codes "a"))) (some (raw_cell (1 ∷ 255 ∷ []))))
      (string_cell (some (codes "b")))
    ≡ (if keyeq (string_cell (some (codes "a"))) (string_cell (some (codes "b")))
        then some (cell_copy fresh.valkind fresh.valsz (some (raw_cell (1 ∷ 255 ∷ []))))
        else getp fresh (string_cell (some (codes "b"))))
getp-setv_example =
    getp-setv fresh (string_cell (some (codes "a"))) (some (raw_cell (1 ∷ 255 ∷ [])))
      (string_cell (some (codes "b"))) fresh-IsValid

setv-IsValid_example : IsValid (setv true fresh (string_cell (some (codes "a"))) none)
setv-IsValid_example = setv-IsValid fresh (string_cell (some (codes "a"))) none fresh-IsValid

one_type : SameType one fresh
unfolding setv init_typed cell_size defaults
one_type = record { keysz_eq = refl; valsz_eq = refl; keykind_eq = refl; valkind_eq = refl }

empty_chains : (d : Dict) (n : ℕ) → AllChains plain d (replicate n [])
empty_chains d zero = omega arith
empty_chains d (suc n) = (omega arith, empty_chains d n)

one_chain :
    (d : Dict) (n i : ℕ) (c : Chain)
    → AllWritable plain d c
    → AllChains plain d (set (replicate n []) i c)
one_chain d zero i c w = omega arith
one_chain d (suc n) zero c w = (w, empty_chains d n)
one_chain d (suc n) (suc i) c w = (omega arith, one_chain d n i c w)

the_entry : Entry
the_entry = record { key = string_cell (some (codes "a")); val = raw_cell (1 ∷ 255 ∷ []) }

the_entry-IsWritable : IsWritable plain one the_entry
unfolding the_entry cell_text c_string hex_cell hex_bytes raw_text setv init_typed cell_size
    defaults string_bytes
the_entry-IsWritable = record {
  key_portable = (refl, omega arith);
  val_portable = (refl, (omega arith, (omega arith, omega arith)));
  key_colon = (refl, omega arith);
  key_line = (refl, omega arith);
  val_line = (refl, (refl, (refl, (refl, (refl, (refl, omega arith))))));
}

one_writable : AllChains plain one one.buckets
unfolding the_entry setv init_typed cell_size defaults set_chain assign bucket chain_of hash_cell
    hash_bytes hash_from string_bytes cell_copy
one_writable = one_chain one 64 6 (the_entry ∷ []) (the_entry-IsWritable, omega arith)

deserialize-serialize_example :
    getp (deserialize plain fresh (serialize plain one)) (string_cell (some (codes "a")))
    ≡ later
        (getp one (string_cell (some (codes "a"))))
        (getp fresh (string_cell (some (codes "a"))))
deserialize-serialize_example =
    deserialize-serialize plain one fresh (string_cell (some (codes "a"))) plain-ReadsInts
      one-IsValid fresh-IsValid one_type one_writable

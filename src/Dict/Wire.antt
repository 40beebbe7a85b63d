-- ===== src/Dict/Wire.antt =====
-- The text form of a dictionary: o9_dict_cell_text, o9_dict_hex_cell, o9_dict_serialize, o9_dict_hexval,
-- o9_dict_parse_cell and o9_dict_deserialize of o9_runtime.c. A text is a C string: its bytes are not 0.
-- Memory does not run out.
use objective_9c.Prelude.{
  ℕ, zero, suc, ◌+◌, ◌-◌, ◌*◌, ◌/◌, ◌%◌, List, [], ◌∷◌, ◌++◌, Option, some, none, true, ◌&&◌, ◌==◌,
  leb, if◌then◌else◌, Bytes, codes, get_or, replicate, take,
}
use objective_9c.Dict.{
  Cell, string_cell, cstr_cell, raw_cell, Kind, kind_string, kind_cstr, kind_int, kind_double,
  kind_other, Entry, Chain, Dict, defaults, string_bytes, setv,
}

-- What libc does to print and read a number that is given by its eight bytes: smprint with %lld and %g,
-- strtoll and strtod.
pub record Numbers : Type 0 where
  pub show_int : Bytes → Bytes
  pub read_int : Bytes → Bytes
  pub show_double : Bytes → Bytes
  pub read_double : Bytes → Bytes

-- what strdup sees of a string: the bytes before the first nul
unfoldable pub c_string : Bytes → Bytes
c_string [] = []
c_string (c ∷ s) = let rest = c_string s in if c == 0 then [] else c ∷ rest

-- the digits "0123456789abcdef"
abbrev pub hex_digit : ℕ → ℕ
hex_digit i = get_or (codes "0123456789abcdef") i 0

-- the loop of o9_dict_hex_cell
unfoldable pub hex_bytes : Bytes → Bytes
hex_bytes [] = []
hex_bytes (b ∷ s) = hex_digit (b / 16) ∷ hex_digit (b % 16) ∷ hex_bytes s

unfoldable pub hex_cell : Bytes → Bytes
hex_cell b = b'0' ∷ b'x' ∷ hex_bytes b

-- the eight bytes of a zeroed variable that received the first bytes of a cell
unfoldable pub widen : Bytes → Bytes
widen b = take 8 (b ++ replicate 8 0)

-- the n bytes of a zeroed cell that received the first bytes of a variable
unfoldable pub narrow : ℕ → Bytes → Bytes
narrow n v = take n (take 8 v ++ replicate n 0)

unfoldable pub hexval : ℕ → Option ℕ
hexval c =
    if leb b'0' c && leb c b'9'
    then some (c - b'0')
    else if leb b'a' c && leb c b'f'
    then some (c - b'a' + 10)
    else if leb b'A' c && leb c b'F'
    then some (c - b'A' + 10)
    else none

-- two digits: the byte, or none if one of them is none
unfoldable pub hex_pair : Option ℕ → Option ℕ → Option ℕ
hex_pair none lo = none
hex_pair (some hi) none = none
hex_pair (some hi) (some lo) = some (hi * 16 + lo)

-- a byte read, or the zeros that are left
unfoldable pub next_byte : ℕ → Option ℕ → Bytes → Bytes
next_byte n none rest = replicate (suc n) 0
next_byte n (some x) rest = x ∷ rest

-- the loop over the digits, with the bytes that are left; the cell was zeroed
unfoldable pub parse_hex : ℕ → Bytes → Bytes
parse_hex zero s = []
parse_hex (suc n) [] = replicate (suc n) 0
parse_hex (suc n) (a ∷ []) = replicate (suc n) 0
parse_hex (suc n) (a ∷ b ∷ s) = next_byte n (hex_pair (hexval a) (hexval b)) (parse_hex n s)

unfoldable pub skip_0x : Bytes → Bytes
skip_0x [] = []
skip_0x (a ∷ []) = a ∷ []
skip_0x (a ∷ b ∷ s) = if a == b'0' && b == b'x' then s else a ∷ b ∷ s

-- one line of a buffer, and the lines behind it
unfoldable pub first_line : ℕ → List Bytes → List Bytes
first_line c [] = (c ∷ []) ∷ []
first_line c (l ∷ ls) = (c ∷ l) ∷ ls

-- the loop of o9_dict_deserialize over the buffer
unfoldable pub lines : Bytes → List Bytes
lines [] = []
lines (c ∷ s) = let rest = lines s in if c == b'\n' then [] ∷ rest else first_line c rest

-- strchr(l, ':'): what stands before and behind the first one
unfoldable pub behind_byte : ℕ → Option (Bytes × Bytes) → Option (Bytes × Bytes)
behind_byte c none = none
behind_byte c (some (k, v)) = some (c ∷ k, v)

unfoldable pub split_colon : Bytes → Option (Bytes × Bytes)
split_colon [] = none
split_colon (c ∷ s) =
    let rest = split_colon s in if c == b':' then some ([], s) else behind_byte c rest

module _ (numbers : Numbers) where
  -- the cells of these kinds are bytes
  unfoldable pub raw_text : Kind → Bytes → Bytes
  raw_text kind_string b = hex_cell b
  raw_text kind_cstr b = hex_cell b
  raw_text kind_int b = numbers.show_int (widen b)
  raw_text kind_double b = numbers.show_double (widen b)
  raw_text kind_other b = hex_cell b

  unfoldable pub cell_text : Kind → Cell → Bytes
  cell_text kind (string_cell s) = c_string (string_bytes s)
  cell_text kind (cstr_cell s) = string_bytes s
  cell_text kind (raw_cell b) = raw_text kind b

  unfoldable pub entry_text : Dict → Entry → Bytes
  entry_text d e = cell_text d.keykind e.key ++ (b':' ∷ (cell_text d.valkind e.val ++ (b'\n' ∷ [])))

  unfoldable pub chain_text : Dict → Chain → Bytes
  chain_text d [] = []
  chain_text d (e ∷ es) = entry_text d e ++ chain_text d es

  unfoldable pub buckets_text : Dict → List Chain → Bytes
  buckets_text d [] = []
  buckets_text d (c ∷ cs) = chain_text d c ++ buckets_text d cs

  unfoldable pub serialize : Dict → Bytes
  serialize d = let d' = defaults d in buckets_text d' d'.buckets

  unfoldable pub parse_cell : Kind → ℕ → Bytes → Cell
  parse_cell kind_string n text = string_cell (some text)
  parse_cell kind_cstr n text = cstr_cell (some text)
  parse_cell kind_int n text = raw_cell (narrow n (numbers.read_int text))
  parse_cell kind_double n text = raw_cell (narrow n (numbers.read_double text))
  parse_cell kind_other n text = raw_cell (parse_hex n (skip_0x text))

  -- a line without ":" is passed over
  unfoldable pub set_line : Dict → Bytes → Dict
  set_line d line = elim (split_colon line) [
    | none ↦ d
    | some (k, v) ↦
        setv true d (parse_cell d.keykind d.keysz k) (some (parse_cell d.valkind d.valsz v))
  ]

  unfoldable pub set_lines : Dict → List Bytes → Dict
  set_lines d [] = d
  set_lines d (l ∷ ls) = set_lines (set_line d l) ls

  unfoldable pub deserialize : Dict → Bytes → Dict
  deserialize d buf = set_lines (defaults d) (lines buf)

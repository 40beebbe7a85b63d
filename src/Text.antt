-- ===== src/Text.antt =====
-- The `string` builtins of o9_runtime.c on the bytes of an O9String: o9_str_len, o9_str_cmp,
-- o9_str_cat, o9_str_chr, o9_string_indexof, o9_string_startswith, o9_string_endswith,
-- o9_string_slice, o9_string_trim, o9_string_lower, o9_string_upper. An O9String is the list of its
-- `len` bytes, and nil reads as the empty string; a result is the string that is made when the
-- allocator succeeds. A `vlong` is a ℤ; no length reaches 2 ^ 63. `char` is signed.
pub mod Compare
pub mod Search
pub mod Slice
pub mod Utf
pub mod Case
pub mod Tests
use objective_9c.Prelude.{
  ℕ, zero, suc, ◌+◌, ◌-◌, ◌*◌, ◌/◌, ◌%◌, ◌^◌, List, [], ◌∷◌, ◌++◌, map, Option, some, none, Bool,
  true, false, ◌&&◌, ◌||◌, not, ◌==◌, ltb, leb, if◌then◌else◌, Bytes, bytes_eq, length, take, drop,
  min, get_or,
}
use objective_9c.Prelude.Int.{ℤ, pos, negsuc}

unfoldable pub str_len : Bytes → ℕ
str_len s = length s

-- memcmp on two blocks of one length: below, at or above 0
unfoldable pub memcmp : Bytes → Bytes → ℤ
memcmp [] t = pos 0
memcmp (a ∷ s) [] = pos 0
memcmp (a ∷ s) (b ∷ t) =
    let rest = memcmp s t in if ltb a b then negsuc 0 else if ltb b a then pos 1 else rest

-- the tests after memcmp
unfoldable pub cmp_rest : ℤ → ℕ → ℕ → ℤ
cmp_rest (negsuc c) an bn = negsuc 0
cmp_rest (pos (suc c)) an bn = pos 1
cmp_rest (pos zero) an bn = if ltb an bn then negsuc 0 else if ltb bn an then pos 1 else pos 0

unfoldable pub str_cmp : Bytes → Bytes → ℤ
str_cmp a b =
    let n = if ltb (length a) (length b) then length a else length b in
    cmp_rest (if ltb 0 n then memcmp (take n a) (take n b) else pos 0) (length a) (length b)

unfoldable pub str_cat : Bytes → Bytes → Bytes
str_cat a b = a ++ b

-- the code point that is encoded: U+FFFD for one out of range
unfoldable pub code_point : ℤ → ℕ
code_point (negsuc n) = 0xFFFD
code_point (pos c) = if ltb 0x10FFFF c then 0xFFFD else c

-- The bit operations by arithmetic: `c >> k` is `c / 2 ^ k`, `c & 0x3F` is `c % 64`, and a lead byte
-- `0xC0 | x` is a sum, since `x` has no bit of it.
unfoldable pub encode : ℕ → Bytes
encode c =
    if ltb c 0x80
    then c ∷ []
    else if ltb c 0x800
    then (0xC0 + c / 64) ∷ (0x80 + c % 64) ∷ []
    else if ltb c 0x10000
    then (0xE0 + c / 4096) ∷ (0x80 + (c / 64) % 64) ∷ (0x80 + c % 64) ∷ []
    else (0xF0 + c / 262144)
      ∷ (0x80 + (c / 4096) % 64)
      ∷ (0x80 + (c / 64) % 64)
      ∷ (0x80 + c % 64)
      ∷ []

unfoldable pub str_chr : ℤ → Bytes
str_chr c = encode (code_point c)

-- the block of `n` bytes from index `i` on
abbrev pub block : Bytes → ℕ → ℕ → Bytes
block s i n = take n (drop i s)

-- the loop of o9_string_indexof, with the rounds that are left
unfoldable pub index_from : ℕ → Bytes → Bytes → ℕ → ℤ
index_from zero s needle i = negsuc 0
index_from (suc rounds) s needle i =
    let rest = index_from rounds s needle (i + 1) in
    if bytes_eq (block s i (length needle)) needle then pos i else rest

unfoldable pub index_of : Bytes → Bytes → ℤ
index_of s needle =
    if length needle == 0
    then pos 0
    else if ltb (length s) (length needle)
    then negsuc 0
    else index_from (length s - length needle + 1) s needle 0

unfoldable pub starts_with : Bytes → Bytes → Bool
starts_with s prefix = leb (length prefix) (length s) && bytes_eq (block s 0 (length prefix)) prefix

unfoldable pub ends_with : Bytes → Bytes → Bool
ends_with s suffix =
    leb (length suffix) (length s)
    && bytes_eq (block s (length s - length suffix) (length suffix)) suffix

-- `start` and `count` after the tests for a negative value, and `start` after that for the length
unfoldable pub at_least_zero : ℤ → ℕ
at_least_zero (negsuc n) = 0
at_least_zero (pos n) = n

-- `start + count > n`: the sum of two vlongs wraps to a negative value from 2 ^ 63 on
unfoldable pub sum_exceeds : ℕ → ℕ → ℕ → Bool
sum_exceeds start count n = if ltb (start + count) (2 ^ 63) then ltb n (start + count) else false

-- `none`: more bytes are asked for than the text has. That needs a count of almost 2 ^ 63, for which
-- o9_string_new returns nil.
unfoldable pub slice : Bytes → ℤ → ℤ → Option Bytes
slice s start count =
    let n = length s in
    let from = min (at_least_zero start) n in
    let asked = at_least_zero count in
    let taken = if sum_exceeds from asked n then n - from else asked in
    if leb (from + taken) n then some (block s from taken) else none

unfoldable pub is_space : ℕ → Bool
is_space c = c == b' ' || c == 9 || c == 10 || c == 13

-- the first loop of o9_string_trim: how many bytes it passes
unfoldable pub lead : Bytes → ℕ
lead [] = 0
lead (c ∷ s) = let rest = lead s in if is_space c then suc rest else 0

-- the second loop: the end, moved down from `b` to no less than `a`
unfoldable pub trail : Bytes → ℕ → ℕ → ℕ
trail s a zero = zero
trail s a (suc b) =
    let rest = trail s a b in if ltb a (suc b) && is_space (get_or s b 0) then rest else suc b

unfoldable pub trim : Bytes → Bytes
trim s = let a = lead s in block s a (trail s a (length s) - a)

unfoldable pub lower_byte : ℕ → ℕ
lower_byte c = if leb b'A' c && leb c b'Z' then c + 32 else c

unfoldable pub upper_byte : ℕ → ℕ
upper_byte c = if leb b'a' c && leb c b'z' then c - 32 else c

unfoldable pub lower : Bytes → Bytes
lower s = map lower_byte s

unfoldable pub upper : Bytes → Bytes
upper s = map upper_byte s

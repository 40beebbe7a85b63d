-- ===== src/Text/Utf.antt =====
-- o9_str_chr encodes in UTF-8.
use objective_9c.Prelude.{
  ℕ, ◌+◌, ◌-◌, ◌*◌, ◌≤◌, ◌≡◌, refl, [], ◌∷◌, Option, some, none, ltb, leb, Bool, ◌&&◌,
  if◌then◌else◌, arith, Bytes, length,
}
use objective_9c.Prelude.Int.{ℤ, pos, negsuc}
use objective_9c.Text.{code_point, encode, str_chr}

abbrev is_tail : ℕ → Bool
is_tail b = leb 0x80 b && ltb b 0xC0

abbrev within : ℕ → ℕ → ℕ → Option ℕ
within low high n = if leb low n && leb n high then some n else none

-- UTF-8 as its tables define it, surrogates included: the code point of a text that is one character
-- in its shortest form
abbrev pub decode : Bytes → Option ℕ
decode (a ∷ []) = within 0 0x7F a
decode (a ∷ b ∷ []) =
    if leb 0xC0 a && ltb a 0xE0 && is_tail b
    then within 0x80 0x7FF ((a - 0xC0) * 64 + (b - 0x80))
    else none
decode (a ∷ b ∷ c ∷ []) =
    if leb 0xE0 a && ltb a 0xF0 && (is_tail b && is_tail c)
    then within 0x800 0xFFFF ((a - 0xE0) * 4096 + (b - 0x80) * 64 + (c - 0x80))
    else none
decode (a ∷ b ∷ c ∷ d ∷ []) =
    if leb 0xF0 a && ltb a 0xF8 && (is_tail b && (is_tail c && is_tail d))
    then within 0x10000 0x10FFFF
        ((a - 0xF0) * 262144 + (b - 0x80) * 4096 + (c - 0x80) * 64 + (d - 0x80))
    else none
decode s = none

-- the code point that a number stands for: itself from 0 to 0x10FFFF, else U+FFFD
abbrev pub scalar : ℤ → ℕ
scalar (pos n) = if leb n 0x10FFFF then n else 0xFFFD
scalar (negsuc n) = 0xFFFD

-- `o9_str_chr` of a number from 0 to 0x10FFFF is the shortest form of this code point in UTF-8, and
-- of any other number that of U+FFFD.
pub decode-str_chr : (c : ℤ) → decode (str_chr c) ≡ some (scalar c)
unfolding str_chr encode code_point
decode-str_chr (negsuc n) = refl
decode-str_chr (pos c) = ground arith

-- The length of the encoding, and its bytes are bytes.
pub encode_size : (c : ℤ) → (1 ≤ length (str_chr c)) × (length (str_chr c) ≤ 4)
unfolding str_chr encode code_point
encode_size (negsuc n) = omega arith
encode_size (pos c) = ground arith

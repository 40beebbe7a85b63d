-- ===== src/Dict/Hex.antt =====
-- A cell can be read back from its text.
use objective_9c.Prelude.{
  ℕ, zero, suc, ◌+◌, ◌*◌, ◌/◌, ◌%◌, ◌≤◌, ◌<◌, ◌≡◌, refl, ap, ap₂, ◌∙◌, [], ◌∷◌, ◌++◌, some, none,
  false, ◌==◌, arith, Bytes, length, replicate, take, take_all, length-take, length-append, subst,
}
use objective_9c.Dict.{
  Cell, string_cell, cstr_cell, raw_cell, Kind, kind_string, kind_cstr, kind_int, kind_double,
  kind_other, string_bytes,
}
use objective_9c.Dict.Wire.{
  Numbers, c_string, hex_digit, hex_bytes, hex_cell, widen, narrow, hexval, hex_pair, parse_hex,
  skip_0x, raw_text, cell_text, parse_cell, next_byte,
}

abbrev pub AllBytes : Bytes → Type 0
AllBytes [] = 0 ≤ 0
AllBytes (b ∷ s) = (b < 256) × AllBytes s

hexval-digit : (i : ℕ) → i < 16 → hexval (hex_digit i) ≡ some i
unfolding hexval
hexval-digit zero h = refl
hexval-digit (suc zero) h = refl
hexval-digit (suc (suc zero)) h = refl
hexval-digit (suc (suc (suc zero))) h = refl
hexval-digit (suc (suc (suc (suc zero)))) h = refl
hexval-digit (suc (suc (suc (suc (suc zero))))) h = refl
hexval-digit (suc (suc (suc (suc (suc (suc zero)))))) h = refl
hexval-digit (suc (suc (suc (suc (suc (suc (suc zero))))))) h = refl
hexval-digit (suc (suc (suc (suc (suc (suc (suc (suc zero)))))))) h = refl
hexval-digit (suc (suc (suc (suc (suc (suc (suc (suc (suc zero))))))))) h = refl
hexval-digit (suc (suc (suc (suc (suc (suc (suc (suc (suc (suc zero)))))))))) h = refl
hexval-digit (suc (suc (suc (suc (suc (suc (suc (suc (suc (suc (suc zero))))))))))) h = refl
hexval-digit (suc (suc (suc (suc (suc (suc (suc (suc (suc (suc (suc (suc zero)))))))))))) h = refl
hexval-digit (suc (suc (suc (suc (suc (suc (suc (suc (suc (suc (suc (suc (suc zero))))))))))))) h =
    refl
hexval-digit
      (suc (suc (suc (suc (suc (suc (suc (suc (suc (suc (suc (suc (suc (suc zero)))))))))))))) h =
    refl
hexval-digit
      (suc (suc (suc (suc (suc (suc (suc (suc (suc (suc (suc (suc (suc (suc (suc zero)))))))))))))))
      h =
    refl
hexval-digit
      (suc
        (suc (suc (suc (suc (suc (suc (suc (suc (suc (suc (suc (suc (suc (suc (suc i))))))))))))))))
      h =
    absurd (omega arith)

pub parse_hex-hex_bytes : (b : Bytes) → AllBytes b → parse_hex (length b) (hex_bytes b) ≡ b
unfolding parse_hex hex_bytes next_byte hex_pair
parse_hex-hex_bytes [] h = refl
parse_hex-hex_bytes (b ∷ s) (small, rest) =
    let hi = hexval-digit (b / 16) (omega arith) in
    let lo = hexval-digit (b % 16) (omega arith) in
    let byte : b / 16 * 16 + b % 16 ≡ b = omega arith in
    let pair : hex_pair (hexval (hex_digit (b / 16))) (hexval (hex_digit (b % 16))) ≡ some b =
      ap₂ hex_pair hi lo ∙ ap some byte in
    ap₂ (next_byte (length s)) pair (parse_hex-hex_bytes s rest)

-- the bytes of a C string are not 0
abbrev pub NoNul : Bytes → Type 0
NoNul [] = 0 ≤ 0
NoNul (c ∷ s) = ((c == 0) ≡ false) × NoNul s

c_string_all : (s : Bytes) → NoNul s → c_string s ≡ s
unfolding c_string
c_string_all [] h = refl
c_string_all (c ∷ s) (ne, rest) = rw (ne, c_string_all s rest) refl

take_front : (n : ℕ) (a b : Bytes) → length a ≡ n → take n (a ++ b) ≡ a
take_front zero [] b h = refl
take_front zero (x ∷ a) b h = absurd (omega arith)
take_front (suc n) [] b h = absurd (omega arith)
take_front (suc n) (x ∷ a) b h = ap (λ r. x ∷ r) (take_front n a b (omega arith))

take-take-append :
    (n k : ℕ) (a b c : Bytes) → n ≤ k → length a ≡ n → take n (take k (a ++ b) ++ c) ≡ a
take-take-append zero k [] b c h e = refl
take-take-append zero k (x ∷ a) b c h e = absurd (omega arith)
take-take-append (suc n) zero a b c h e = absurd (omega arith)
take-take-append (suc n) (suc k) [] b c h e = absurd (omega arith)
take-take-append (suc n) (suc k) (x ∷ a) b c h e =
    ap (λ r. x ∷ r) (take-take-append n k a b c (omega arith) (omega arith))

length-widen : (b : Bytes) → length b ≤ 8 → length (widen b) ≡ 8
unfolding widen
length-widen b h =
    let l = length-take 8 (b ++ replicate 8 0) in
    let m = length-append b (replicate 8 0) in omega (arith, l, m)

narrow-widen : (n : ℕ) (b : Bytes) → n ≤ 8 → length b ≡ n → narrow n (widen b) ≡ b
unfolding narrow widen
narrow-widen n b h e =
    ap (λ z. take n (z ++ replicate n 0))
      (take_all 8 (take 8 (b ++ replicate 8 0))
        (let l = length-take 8 (b ++ replicate 8 0) in omega (arith, l)))
    ∙ take-take-append n 8 b (replicate 8 0) (replicate n 0) h e

-- strtoll undoes smprint with %lld, whatever the eight bytes are
abbrev pub ReadsInts : Numbers → Type 0
ReadsInts numbers = (b : Bytes) → length b ≡ 8 → numbers.read_int (numbers.show_int b) ≡ b

-- a cell that its text says all of: no nil, no nul in a string, the bytes as many as the cell has
abbrev pub IsPortable : Kind → ℕ → Cell → Type 0
IsPortable kind_string n (string_cell (some s)) = NoNul s
IsPortable kind_cstr n (cstr_cell (some s)) = 0 ≤ length s
IsPortable kind_int n (raw_cell b) = (length b ≡ n) × (n ≤ 8)
IsPortable kind_other n (raw_cell b) = (length b ≡ n) × AllBytes b
IsPortable kind n c = 1 ≤ 0

parse_hex-hex_cell : (s : Bytes) → AllBytes s → parse_hex (length s) (skip_0x (hex_cell s)) ≡ s
unfolding skip_0x hex_cell
parse_hex-hex_cell s q = parse_hex-hex_bytes s q

-- Reading back the text of a portable cell gives the cell: strings, C strings, bytes in hexadecimal, and
-- numbers by what libc prints and reads.
pub parse_cell-cell_text :
    (numbers : Numbers) (kind : Kind) (n : ℕ) (c : Cell)
    → ReadsInts numbers
    → IsPortable kind n c
    → parse_cell numbers kind n (cell_text numbers kind c) ≡ c
unfolding parse_cell cell_text raw_text string_bytes
parse_cell-cell_text numbers kind_string n (string_cell (some s)) r h =
    ap (λ z. string_cell (some z)) (c_string_all s h)
parse_cell-cell_text numbers kind_string n (string_cell none) r h = elim h [ ]
parse_cell-cell_text numbers kind_string n (cstr_cell s) r h = elim h [ ]
parse_cell-cell_text numbers kind_string n (raw_cell b) r h = elim h [ ]
parse_cell-cell_text numbers kind_cstr n (string_cell s) r h = elim h [ ]
parse_cell-cell_text numbers kind_cstr n (cstr_cell none) r h = elim h [ ]
parse_cell-cell_text numbers kind_cstr n (cstr_cell (some s)) r h = refl
parse_cell-cell_text numbers kind_cstr n (raw_cell b) r h = elim h [ ]
parse_cell-cell_text numbers kind_int n (string_cell s) r h = elim h [ ]
parse_cell-cell_text numbers kind_int n (cstr_cell s) r h = elim h [ ]
parse_cell-cell_text numbers kind_int n (raw_cell b) r (e, small) =
    ap (λ z. raw_cell (narrow n z)) (r (widen b) (length-widen b (omega arith)))
    ∙ ap raw_cell (narrow-widen n b small e)
parse_cell-cell_text numbers kind_double n (string_cell s) r h = elim h [ ]
parse_cell-cell_text numbers kind_double n (cstr_cell s) r h = elim h [ ]
parse_cell-cell_text numbers kind_double n (raw_cell b) r h = elim h [ ]
parse_cell-cell_text numbers kind_other n (string_cell s) r h = elim h [ ]
parse_cell-cell_text numbers kind_other n (cstr_cell s) r h = elim h [ ]
parse_cell-cell_text numbers kind_other n (raw_cell b) r (e, bytes) =
    ap raw_cell (subst (λ m. parse_hex m (skip_0x (hex_cell b)) ≡ b) e (parse_hex-hex_cell b bytes))

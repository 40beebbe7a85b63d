-- ===== src/Lexical.antt =====
-- The comparison of C texts that ignores blanks and comments: o9_c_word_char, o9_c_token_join,
-- o9_c_without_ws_comments and o9_c_lexical_whitespace_equiv of o9_runtime.c. Texts have no nul. Memory
-- does not run out. A scan that reads behind its text, where anything may follow, gives none.
pub mod Journal
pub mod Blanks
pub mod Tests
use objective_9c.Prelude.{
  ℕ, zero, suc, List, [], ◌∷◌, ◌++◌, Option, some, none, Bool, true, false, ◌&&◌, ◌||◌, not, ◌==◌,
  leb, if◌then◌else◌, Bytes, bytes_eq,
}

abbrev pub between : ℕ → ℕ → ℕ → Bool
between a b c = leb a c && leb c b

unfoldable pub word_char : ℕ → Bool
word_char c = between b'a' b'z' c || (between b'A' b'Z' c || (between b'0' b'9' c || c == b'_'))

-- whether a byte is one of a text
abbrev pub one_of : ℕ → Bytes → Bool
one_of c [] = false
one_of c (d ∷ ds) = c == d || one_of c ds

-- the bytes that make an operator with the one before
unfoldable pub joins_operator : ℕ → ℕ → Bool
joins_operator a b =
    (a == b'+' && (b == b'+' || b == b'='))
    || ((a == b'-' && (b == b'-' || (b == b'=' || b == b'>')))
        || ((a == b'<' && (b == b'<' || (b == b'=' || (b == b':' || b == b'%'))))
            || ((a == b'>' && (b == b'>' || b == b'='))
                || ((a == b'=' && b == b'=')
                    || ((a == b'!' && b == b'=')
                        || ((a == b'&' && (b == b'&' || b == b'='))
                            || ((a == b'|' && (b == b'|' || b == b'='))
                                || ((a == b'*' && b == b'=')
                                    || ((a == b'/' && (b == b'=' || b == b'*'))
                                        || ((a == b'%' && (b == b'=' || (b == b'>' || b == b':')))
                                            || ((a == b'^' && b == b'=')
                                                || ((a == b'#' && b == b'#')
                                                    || (a == b':' && b == b'>')))))))))))))

unfoldable pub token_join : ℕ → ℕ → Bool
token_join a b =
    (word_char a && word_char b)
    || (((a == b'.' && (b == b'.' || between b'0' b'9' b)) || (between b'0' b'9' a && b == b'.'))
        || (joins_operator a b || (word_char a && (b == 34 || b == 39))))

-- Where the scan stands: in code, in a literal with its quote (`escaped` behind a backslash), in a
-- comment, or before the second byte of what opens or closes a comment.
pub data Mode : Type 0 where
  code : Mode
  literal escaped : ℕ → Mode
  block line opening_block opening_line closing : Mode

-- with `gap`, and the last byte of the output
pub record Scan : Type 0 where
  pub mode : Mode
  pub gap : Bool
  pub last : Option ℕ

unfoldable pub is_blank : ℕ → Bool
is_blank c = one_of c (b' ' ∷ 9 ∷ b'\n' ∷ 13 ∷ 11 ∷ 12 ∷ [])

abbrev pub next_is : ℕ → Bytes → Bool
next_is c [] = false
next_is c (d ∷ s) = d == c

-- a byte of code written out, with a blank before it where the gap kept two tokens apart
unfoldable pub emit : Scan → ℕ → Bytes
emit st c = elim st.last [
  | none ↦ c ∷ []
  | some a ↦ if st.gap && token_join a c then b' ' ∷ c ∷ [] else c ∷ []
]

unfoldable pub code_step : Scan → ℕ → Bytes → Scan × Bytes
code_step st c s =
    if c == 34 || c == 39
    then (record { mode = literal c; gap = false; last = some c }, emit st c)
    else if c == b'/' && next_is b'*' s
    then (record st { mode = opening_block; gap = true }, [])
    else if c == b'/' && next_is b'/' s
    then (record st { mode = opening_line; gap = true }, [])
    else if is_blank c
    then (record st { gap = true }, [])
    else (record { mode = code; gap = false; last = some c }, emit st c)

-- one byte, with those behind it
unfoldable pub scan_step : Mode → Scan → ℕ → Bytes → Scan × Bytes
scan_step code st c s = code_step st c s
scan_step (literal q) st c s =
    if c == 92
    then (record st { mode = escaped q; last = some c }, c ∷ [])
    else if c == q
    then (record st { mode = code; last = some c }, c ∷ [])
    else (record st { last = some c }, c ∷ [])
scan_step (escaped q) st c s = (record st { mode = literal q; last = some c }, c ∷ [])
scan_step block st c s =
    if c == b'*' && next_is b'/' s then (record st { mode = closing }, []) else (st, [])
scan_step line st c s = if c == b'\n' then (record st { mode = code }, []) else (st, [])
scan_step opening_block st c s = (record st { mode = block }, [])
scan_step opening_line st c s = (record st { mode = line }, [])
scan_step closing st c s = (record st { mode = code }, [])

-- The comment that the text ends in is stepped over with the nul behind it, and what follows the text
-- is read: `false`. A text that ends in code or in a literal is read to its end.
unfoldable pub ends_well : Mode → Bool
ends_well code = true
ends_well (literal q) = true
ends_well (escaped q) = true
ends_well block = false
ends_well line = false
ends_well opening_block = false
ends_well opening_line = false
ends_well closing = false

abbrev pub written : Bytes → Option Bytes → Option Bytes
written out none = none
written out (some s) = some (out ++ s)

-- `none` where the scan reads behind the text
unfoldable pub scan : Scan → Bytes → Option Bytes
scan st [] = if ends_well st.mode then some [] else none
scan st (c ∷ s) = let (next, out) = scan_step st.mode st c s in written out (scan next s)

abbrev pub first_scan : Scan
first_scan = record { mode = code; gap = false; last = none }

-- o9_c_without_ws_comments
unfoldable pub without_ws_comments : Bytes → Option Bytes
without_ws_comments s = scan first_scan s

abbrev pub both_equal : Option Bytes → Option Bytes → Option Bool
both_equal none b = none
both_equal (some a) none = none
both_equal (some a) (some b) = some (bytes_eq a b)

-- o9_c_lexical_whitespace_equiv, on the texts of the two files, or none; it gives none where it reads
-- behind a text
unfoldable pub whitespace_equiv : Option Bytes → Option Bytes → Option Bool
whitespace_equiv none b = some false
whitespace_equiv (some a) none = some false
whitespace_equiv (some a) (some b) =
    if bytes_eq a b then some false else both_equal (without_ws_comments a) (without_ws_comments b)

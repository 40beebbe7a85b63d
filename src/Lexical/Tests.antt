-- ===== src/Lexical/Tests.antt =====
-- Texts that are compared, and a line of a journal.
use objective_9c.Prelude.{◌≡◌, refl, [], ◌∷◌, ◌++◌, some, none, true, false, codes, arith}
use objective_9c.Lexical.{
  code, first_scan, scan, scan_step, code_step, emit, token_join, joins_operator, word_char,
  is_blank, without_ws_comments, whitespace_equiv, ends_well,
}
use objective_9c.Lexical.Blanks.{after, newline_ignored}
use objective_9c.Lexical.Journal.{journal_split, journal_split-tabbed, tabbed, has_tab}

-- comments and blanks go, and a blank stays where two tokens would join
strip_test :
    without_ws_comments (codes "int  a /* x */= b + +c; // y" ++ (b'\n' ∷ []))
    ≡ some (codes "int a=b+ +c;")
unfolding without_ws_comments scan scan_step code_step emit token_join joins_operator word_char
    is_blank ends_well
strip_test = refl

-- without the newline the scan reads on behind the text
overrun_test : without_ws_comments (codes "int a; // y") ≡ none
unfolding without_ws_comments scan scan_step code_step emit token_join joins_operator word_char
    is_blank ends_well
overrun_test = refl

define_in_code : (after first_scan (codes "#define N") (b'\n' ∷ codes "1")).mode ≡ code
unfolding scan_step code_step is_blank
define_in_code = refl

define_stripped :
    without_ws_comments (codes "#define N" ++ (b'\n' ∷ codes "1")) ≡ some (codes "#define N 1")
unfolding without_ws_comments scan scan_step code_step emit token_join joins_operator word_char
    is_blank ends_well
define_stripped = refl

-- the end of a directive is dropped too
newline_ignored_example :
    whitespace_equiv
      (some (codes "#define N" ++ (b'\n' ∷ codes "1")))
      (some (codes "#define N" ++ (b' ' ∷ codes "1")))
    ≡ some true
newline_ignored_example =
    newline_ignored (codes "#define N") (codes "1") (codes "#define N 1") define_in_code
      define_stripped

journal_split-tabbed_example :
    (journal_split (some (tabbed (codes "t" ∷ codes "u" ∷ []) ++ codes "d")) 2
      ≡ (codes "t" ∷ codes "u" ∷ [], codes "d", 2))
    × (has_tab (codes "d") ≡ false
        → journal_split (some (tabbed (codes "t" ∷ codes "u" ∷ []) ++ codes "d")) 3
          ≡ (codes "t" ∷ codes "u" ∷ codes "d" ∷ [], [], 3))
journal_split-tabbed_example =
    journal_split-tabbed (codes "t") (codes "u" ∷ []) (codes "d") (refl, (refl, omega arith))

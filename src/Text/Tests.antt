-- ===== src/Text/Tests.antt =====
-- Small texts.
use objective_9c.Prelude.{◌≡◌, refl, ◌↔◌, ◌++◌, some, none, true, arith, Bytes, codes, length}
use objective_9c.Prelude.Int.{pos}
use objective_9c.Text.{
  str_cmp, str_chr, index_of, starts_with, ends_with, slice, trim, lower, upper, lead, trail,
  is_space,
}
use objective_9c.Text.Compare.{opposite, str_cmp_laws}
use objective_9c.Text.Search.{First, index_of_lem, starts_with_lem, ends_with_lem}
use objective_9c.Text.Slice.{slice-wraps}
use objective_9c.Text.Utf.{decode, scalar, decode-str_chr}
use objective_9c.Text.Case.{case_laws}

trimmed : trim (codes " a b ") ≡ codes "a b"
unfolding trim lead trail is_space
trimmed = refl

str_cmp_laws_example :
    ((str_cmp (codes "ab") (codes "b") ≡ pos 0) ↔ (codes "ab" ≡ codes "b"))
    × (str_cmp (codes "b") (codes "ab") ≡ opposite (str_cmp (codes "ab") (codes "b")))
str_cmp_laws_example = str_cmp_laws (codes "ab") (codes "b")

index_of_lem_example : First (codes "abab") (codes "ba") (index_of (codes "abab") (codes "ba"))
index_of_lem_example = index_of_lem (codes "abab") (codes "ba")

starts_with_lem_example :
    (starts_with (codes "abc") (codes "ab") ≡ true)
    ↔ ((rest : Bytes) × (codes "abc" ≡ codes "ab" ++ rest))
starts_with_lem_example = starts_with_lem (codes "abc") (codes "ab")

ends_with_lem_example :
    (ends_with (codes "abc") (codes "bc") ≡ true)
    ↔ ((front : Bytes) × (codes "abc" ≡ front ++ codes "bc"))
ends_with_lem_example = ends_with_lem (codes "abc") (codes "bc")

slice-wraps_example : slice (codes "abc") (pos 1) (pos 9223372036854775807) ≡ none
slice-wraps_example =
    slice-wraps (codes "abc") 1 9223372036854775807 (omega arith) (omega arith) (omega arith)

decode-str_chr_example : decode (str_chr (pos 8364)) ≡ some (scalar (pos 8364))
decode-str_chr_example = decode-str_chr (pos 8364)

case_laws_example :
    (upper (lower (codes "aB")) ≡ upper (codes "aB"))
    × (lower (upper (codes "aB")) ≡ lower (codes "aB"))
    × (length (lower (codes "aB")) ≡ length (codes "aB"))
    × (length (upper (codes "aB")) ≡ length (codes "aB"))
case_laws_example = case_laws (codes "aB")

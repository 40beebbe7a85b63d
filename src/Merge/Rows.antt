-- ===== src/Merge/Rows.antt =====
-- The rows of a result file of grid/o9mutmerge.c: field, same_result and second_line.
use objective_9c.Prelude.{
  ℕ, zero, suc, ◌-◌, List, [], ◌∷◌, Option, some, none, Bool, true, false, ◌==◌, if◌then◌else◌,
  Bytes, bytes_eq, take,
}

abbrev pub tab_byte : ℕ
tab_byte = 9

abbrev pub max_row : ℕ
max_row = 8192

-- a text up to the first byte `b`, or its end
unfoldable pub before_byte : ℕ → Bytes → Bytes
before_byte b [] = []
before_byte b (c ∷ s) = let rest = before_byte b s in if c == b then [] else c ∷ rest

-- what stands behind the first byte `b`: strchr, and a step
unfoldable pub behind_byte : ℕ → Bytes → Option Bytes
behind_byte b [] = none
behind_byte b (c ∷ s) = let rest = behind_byte b s in if c == b then some s else rest

unfoldable pub behind_tabs : ℕ → Option Bytes → Option Bytes
behind_tabs n none = none
behind_tabs zero (some s) = some s
behind_tabs (suc n) (some s) = behind_tabs n (behind_byte tab_byte s)

-- field n, counted from 1, in a buffer of `nbuf` bytes
unfoldable pub field : Bytes → ℕ → ℕ → Bytes
field row n nbuf = elim (behind_tabs (n - 1) (some row)) [
  | none ↦ []
  | some s ↦ take (nbuf - 1) (before_byte tab_byte s)
]

unfoldable pub same_fields : List ℕ → Bytes → Bytes → Bool
same_fields [] a b = true
same_fields (n ∷ ns) a b =
    let rest = same_fields ns a b in
    if bytes_eq (field a n max_row) (field b n max_row) then rest else false

-- the fields that do not depend on the worker
unfoldable pub same_result : Bytes → Bytes → Bool
same_result a b = same_fields (1 ∷ 3 ∷ 4 ∷ 5 ∷ 6 ∷ 9 ∷ []) a b

-- the text behind the first newline, to the next one; none if there is nothing behind it
unfoldable pub line_at : Option Bytes → Option Bytes
line_at none = none
line_at (some []) = none
line_at (some (c ∷ s)) = some (before_byte b'\n' (c ∷ s))

-- `text` is what read gives into a buffer of Maxrow bytes, up to the first nul
unfoldable pub second_line : Option Bytes → Option Bytes
second_line none = none
second_line (some []) = none
second_line (some (c ∷ s)) =
    line_at (behind_byte b'\n' (before_byte 0 (take (max_row - 1) (c ∷ s))))

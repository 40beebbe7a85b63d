-- ===== src/TypeExpr/Builtins.antt =====
-- The table of the builtin types of o9c/o9_type.c, and the functions that read it.
use objective_9c.Prelude.{
  ℕ, List, [], ◌∷◌, Option, some, none, Bool, true, false, if◌then◌else◌, Bytes, bytes_eq, codes,
  length, get_elem?, ◌≡◌, ◌&&◌, Bool-cases, inl, inr, arith,
}
use objective_9c.Prelude.Int.{ℤ, pos, negsuc}
use objective_9c.TypeExpr.{canonical_type_name}
use Prim.Native.String.{String}

pub record Builtin : Type 0 where
  pub name : Bytes
  pub plan9 : Bytes
  pub abi : Bytes
  pub fmt : Bytes
  pub zero_value : Bytes

abbrev row : String → String → String → String → String → Builtin
row name plan9 abi fmt zero_value = record {
  name = codes name;
  plan9 = codes plan9;
  abi = codes abi;
  fmt = codes fmt;
  zero_value = codes zero_value;
}

-- without the row of nils that ends the array
abbrev pub builtins : List Builtin
builtins =
    row "bool" "int" "scalar" "%d" "0"
    ∷ row "int64" "vlong" "scalar" "%lld" "0"
    ∷ row "uint64" "uvlong" "scalar" "%llud" "0"
    ∷ row "int32" "long" "scalar" "%ld" "0"
    ∷ row "uint32" "ulong" "scalar" "%lud" "0"
    ∷ row "int16" "short" "scalar" "%d" "0"
    ∷ row "uint16" "ushort" "scalar" "%ud" "0"
    ∷ row "int8" "char" "scalar" "%d" "0"
    ∷ row "uint8" "uchar" "scalar" "%ud" "0"
    ∷ row "byte" "uchar" "scalar" "%ud" "0"
    ∷ row "double" "double" "scalar" "%g" "0.0"
    ∷ row "void" "void" "none" "" ""
    ∷ row "string" "O9String*" "pointer" "%p" "nil"
    ∷ row "function" "void*" "pointer" "%p" "nil"
    ∷ row "int" "int" "scalar" "%d" "0"
    ∷ row "uint" "uint" "scalar" "%ud" "0"
    ∷ row "short" "short" "scalar" "%d" "0"
    ∷ row "long" "long" "scalar" "%ld" "0"
    ∷ row "char" "char" "scalar" "%d" "0"
    ∷ row "intptr" "intptr" "scalar" "%lld" "0"
    ∷ row "uintptr" "uintptr" "scalar" "%llud" "0"
    ∷ row "vlong" "vlong" "scalar" "%lld" "0"
    ∷ row "uvlong" "uvlong" "scalar" "%llud" "0"
    ∷ row "ulong" "ulong" "scalar" "%lud" "0"
    ∷ row "ushort" "ushort" "scalar" "%ud" "0"
    ∷ row "uchar" "uchar" "scalar" "%ud" "0"
    ∷ row "tabula" "O9Tabula*" "pointer" "%p" "nil"
    ∷ row "MountTable" "O9MountTable*" "pointer" "%p" "nil"
    ∷ row "FileTree" "O9FileTree*" "pointer" "%p" "nil"
    ∷ row "Vault" "O9Vault*" "pointer" "%p" "nil"
    ∷ []

-- the loop of find_builtin
unfoldable pub find_row : List Builtin → Bytes → Option Builtin
find_row [] name = none
find_row (b ∷ bs) name =
    let rest = find_row bs name in if bytes_eq b.name name then some b else rest

unfoldable pub find_builtin : Bytes → Option Builtin
find_builtin name = find_row builtins (canonical_type_name name)

unfoldable pub type_builtin_count : ℕ
type_builtin_count = length builtins

unfoldable pub type_builtin_name : ℤ → Option Bytes
type_builtin_name (negsuc n) = none
type_builtin_name (pos idx) = elim (get_elem? builtins idx) [ none ↦ none | some b ↦ some b.name ]

unfoldable pub type_is_builtin_name : Bytes → Bool
type_is_builtin_name name = elim (find_builtin name) [ none ↦ false | some b ↦ true ]

unfoldable pub type_builtin_plan9 : Bytes → Option Bytes
type_builtin_plan9 name = elim (find_builtin name) [ none ↦ none | some b ↦ some b.plan9 ]

unfoldable pub type_builtin_abi : Bytes → Option Bytes
type_builtin_abi name = elim (find_builtin name) [ none ↦ none | some b ↦ some b.abi ]

unfoldable pub type_builtin_fmt : Bytes → Option Bytes
type_builtin_fmt name = elim (find_builtin name) [ none ↦ none | some b ↦ some b.fmt ]

unfoldable pub type_builtin_zero : Bytes → Option Bytes
type_builtin_zero name = elim (find_builtin name) [ none ↦ none | some b ↦ some b.zero_value ]

abbrev pub all_rows : (Builtin → Bool) → List Builtin → Bool
all_rows good [] = true
all_rows good (b ∷ bs) = good b && all_rows good bs

-- What holds of every row of the table holds of the row that is found.
pub find_row-All :
    (good : Builtin → Bool) (bs : List Builtin) (name : Bytes) (b : Builtin)
    → all_rows good bs ≡ true
    → find_row bs name ≡ some b
    → good b ≡ true
unfolding find_row
find_row-All good [] name b h e = cc
find_row-All good (r ∷ rs) name b h e = elim (Bool-cases (bytes_eq r.name name)) [
  | inl here ↦ ground arith
  | inr other ↦ find_row-All good rs name b (ground arith) (ground arith)
]

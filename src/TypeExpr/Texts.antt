-- ===== src/TypeExpr/Texts.antt =====
-- The texts that the compiler makes of a type: type_render, type_dump, type_cname, type_storage,
-- type_plan9, type_abi, type_fmt and type_zero of o9c/o9_type.c.
use objective_9c.Prelude.{
  ℕ, [], ◌∷◌, ◌++◌, Option, some, none, Bool, true, false, if◌then◌else◌, ◌==◌, Bytes, bytes_eq,
  codes,
}
use objective_9c.TypeExpr.{
  TypeExpr, nil_type, ty_name, ty_param, ty_apply, ty_ptr, ty_array, TypeList, end, more,
  canonical_type_name,
}
use objective_9c.TypeExpr.Builtins.{
  type_builtin_plan9, type_builtin_abi, type_builtin_fmt, type_builtin_zero,
}

-- what stands between two parts of a list
unfoldable pub separator : Bool → Bytes → Bytes
separator first sep = if first then [] else sep

unfoldable mutual
  pub type_render : TypeExpr → Bytes
  type_render nil_type = codes "<nil>"
  type_render (ty_name n) = n
  type_render (ty_param n) = n
  type_render (ty_apply n l) = n ++ (b'<' ∷ (render_list true l ++ (b'>' ∷ [])))
  type_render (ty_ptr t) = type_render t ++ codes "*"
  type_render (ty_array t) = type_render t ++ codes "[]"

  -- render_list with ","
  pub render_list : Bool → TypeList → Bytes
  render_list first end = []
  render_list first (more t l) =
      separator first (codes ",") ++ (type_render t ++ render_list false l)

unfoldable mutual
  pub type_dump : TypeExpr → Bytes
  type_dump nil_type = codes "Nil"
  type_dump (ty_name n) = codes "Name(" ++ (n ++ codes ")")
  type_dump (ty_param n) = codes "Param(" ++ (n ++ codes ")")
  type_dump (ty_apply n l) = codes "Apply(" ++ (n ++ (b',' ∷ (dump_list true l ++ codes ")")))
  type_dump (ty_ptr t) = codes "Ptr(" ++ (type_dump t ++ codes ")")
  type_dump (ty_array t) = codes "Array(" ++ (type_dump t ++ codes ")")

  -- render_list with "," for a dump
  pub dump_list : Bool → TypeList → Bytes
  dump_list first end = []
  dump_list first (more t l) = separator first (codes ",") ++ (type_dump t ++ dump_list false l)

unfoldable pub mangle_byte : ℕ → Bytes
mangle_byte c = if c == b'.' then codes "__" else if c == b'*' then codes "p" else c ∷ []

unfoldable pub mangle_name : Bytes → Bytes
mangle_name [] = []
mangle_name (c ∷ s) = mangle_byte c ++ mangle_name s

unfoldable mutual
  pub type_cname : TypeExpr → Bytes
  type_cname nil_type = codes "nil"
  type_cname (ty_name n) = mangle_name n
  type_cname (ty_param n) = mangle_name n
  type_cname (ty_apply n l) = mangle_name n ++ (codes "__" ++ mangle_list true l)
  type_cname (ty_ptr t) = type_cname t ++ codes "_ptr"
  type_cname (ty_array t) = type_cname t ++ codes "_arr"

  pub mangle_list : Bool → TypeList → Bytes
  mangle_list first end = []
  mangle_list first (more t l) =
      separator first (codes "__") ++ (type_cname t ++ mangle_list false l)

unfoldable pub is_tabula : Bytes → Bool
is_tabula n = bytes_eq (canonical_type_name n) (codes "tabula")

unfoldable pub or_else : Option Bytes → Bytes → Bytes
or_else none d = d
or_else (some s) d = s

unfoldable pub type_storage : TypeExpr → Bytes
type_storage nil_type = codes "void"
type_storage (ty_name n) = or_else (type_builtin_plan9 n) (type_render (ty_name n))
type_storage (ty_param n) = type_render (ty_param n)
type_storage (ty_apply n l) = if is_tabula n then codes "O9Tabula*" else type_cname (ty_apply n l)
type_storage (ty_ptr t) = type_storage t ++ codes "*"
type_storage (ty_array t) = type_storage t ++ codes "*"

unfoldable pub type_plan9 : TypeExpr → Bytes
type_plan9 nil_type = codes "void"
type_plan9 (ty_name n) = or_else (type_builtin_plan9 n) (type_cname (ty_name n))
type_plan9 (ty_param n) = codes "void*"
type_plan9 (ty_apply n l) = if is_tabula n then codes "O9Tabula*" else type_cname (ty_apply n l)
type_plan9 (ty_ptr t) = type_storage (ty_ptr t)
type_plan9 (ty_array t) = codes "O9Slice"

unfoldable pub type_abi : TypeExpr → Bytes
type_abi nil_type = codes "none"
type_abi (ty_name n) = or_else (type_builtin_abi n) (codes "named")
type_abi (ty_param n) = codes "param"
type_abi (ty_apply n l) = if is_tabula n then codes "pointer" else codes "generic"
type_abi (ty_ptr t) = codes "pointer"
type_abi (ty_array t) = codes "slice"

-- a text of the table that is there and not empty
unfoldable pub or_text : Option Bytes → Bytes → Bytes
or_text none d = d
or_text (some []) d = d
or_text (some (c ∷ s)) d = c ∷ s

unfoldable pub type_fmt : TypeExpr → Bytes
type_fmt nil_type = codes "%p"
type_fmt (ty_name n) = or_text (type_builtin_fmt n) (codes "%p")
type_fmt (ty_param n) = codes "%p"
type_fmt (ty_apply n l) = codes "%p"
type_fmt (ty_ptr t) = codes "%p"
type_fmt (ty_array t) = codes "%p"

unfoldable pub type_zero : TypeExpr → Bytes
type_zero nil_type = codes "0"
type_zero (ty_name n) = or_text (type_builtin_zero n) (codes "0")
type_zero (ty_param n) = codes "0"
type_zero (ty_apply n l) = codes "nil"
type_zero (ty_ptr t) = codes "nil"
type_zero (ty_array t) = codes "nil"

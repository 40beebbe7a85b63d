-- ===== src/TypeExpr.antt =====
-- The types of the compiler: o9c/o9_type.c and o9c/o9_type.h. A `Type*` that is nil is a constructor,
-- and so is the end of a TypeList; the names of types are not nil. Memory never runs out (emalloc ends
-- the program), and a text that is returned is the list of its bytes.
pub mod Builtins
pub mod Equal
pub mod Names
pub mod Values
pub mod Texts
pub mod Dump
pub mod Tests
use objective_9c.Prelude.{
  ℕ, zero, suc, ◌+◌, List, [], ◌∷◌, ◌++◌, Option, some, none, Bool, true, false, ◌&&◌,
  if◌then◌else◌, ◌==◌, Bytes, bytes_eq, codes,
}

mutual
  -- `Type`
  pub data TypeExpr : Type 0 where
    nil_type : TypeExpr
    ty_name : Bytes → TypeExpr
    ty_param : Bytes → TypeExpr
    ty_apply : Bytes → TypeList → TypeExpr
    ty_ptr : TypeExpr → TypeExpr
    ty_array : TypeExpr → TypeExpr

  pub data TypeList : Type 0 where
    end : TypeList
    more : TypeExpr → TypeList → TypeList

unfoldable pub canonical_type_name : Bytes → Bytes
canonical_type_name name = if bytes_eq name (codes "Tabula") then codes "tabula" else name

unfoldable pub type_name : Bytes → TypeExpr
type_name name = ty_name (canonical_type_name name)

unfoldable pub type_param : Bytes → TypeExpr
type_param name = ty_param name

unfoldable pub type_apply : Bytes → TypeList → TypeExpr
type_apply name args = ty_apply (canonical_type_name name) args

unfoldable pub type_ptr : TypeExpr → TypeExpr
type_ptr base = ty_ptr base

unfoldable pub type_array : TypeExpr → TypeExpr
type_array base = ty_array base

unfoldable pub type_list : TypeExpr → TypeList
type_list t = more t end

unfoldable pub type_list_append : TypeList → TypeExpr → TypeList
type_list_append end t = type_list t
type_list_append (more u l) t = more u (type_list_append l t)

unfoldable pub type_list_len : TypeList → ℕ
type_list_len end = 0
type_list_len (more t l) = type_list_len l + 1

-- strcmp on two names as the table spells them
unfoldable pub same_name : Bytes → Bytes → Bool
same_name a b = bytes_eq (canonical_type_name a) (canonical_type_name b)

-- the tests of type_equal on the second type, for each kind of the first
unfoldable pub equal_nil : TypeExpr → Bool
equal_nil nil_type = true
equal_nil (ty_name n) = false
equal_nil (ty_param n) = false
equal_nil (ty_apply n l) = false
equal_nil (ty_ptr t) = false
equal_nil (ty_array t) = false

unfoldable pub equal_name : Bytes → TypeExpr → Bool
equal_name a nil_type = false
equal_name a (ty_name n) = same_name a n
equal_name a (ty_param n) = false
equal_name a (ty_apply n l) = false
equal_name a (ty_ptr t) = false
equal_name a (ty_array t) = false

unfoldable pub equal_param : Bytes → TypeExpr → Bool
equal_param a nil_type = false
equal_param a (ty_name n) = false
equal_param a (ty_param n) = same_name a n
equal_param a (ty_apply n l) = false
equal_param a (ty_ptr t) = false
equal_param a (ty_array t) = false

-- `args_equal` is the loop over the arguments
unfoldable pub equal_apply : Bytes → (TypeList → Bool) → TypeExpr → Bool
equal_apply a args_equal nil_type = false
equal_apply a args_equal (ty_name n) = false
equal_apply a args_equal (ty_param n) = false
equal_apply a args_equal (ty_apply n l) = if same_name a n then args_equal l else false
equal_apply a args_equal (ty_ptr t) = false
equal_apply a args_equal (ty_array t) = false

unfoldable pub equal_ptr : (TypeExpr → Bool) → TypeExpr → Bool
equal_ptr base_equal nil_type = false
equal_ptr base_equal (ty_name n) = false
equal_ptr base_equal (ty_param n) = false
equal_ptr base_equal (ty_apply n l) = false
equal_ptr base_equal (ty_ptr t) = base_equal t
equal_ptr base_equal (ty_array t) = false

unfoldable pub equal_array : (TypeExpr → Bool) → TypeExpr → Bool
equal_array base_equal nil_type = false
equal_array base_equal (ty_name n) = false
equal_array base_equal (ty_param n) = false
equal_array base_equal (ty_apply n l) = false
equal_array base_equal (ty_ptr t) = false
equal_array base_equal (ty_array t) = base_equal t

-- the loop over two lists of arguments: both must end together
unfoldable pub equal_end : TypeList → Bool
equal_end end = true
equal_end (more t l) = false

unfoldable pub equal_more : (TypeExpr → Bool) → (TypeList → Bool) → TypeList → Bool
equal_more first_equal rest_equal end = false
equal_more first_equal rest_equal (more t l) = if first_equal t then rest_equal l else false

unfoldable mutual
  pub type_equal : TypeExpr → TypeExpr → Bool
  type_equal nil_type b = equal_nil b
  type_equal (ty_name a) b = equal_name a b
  type_equal (ty_param a) b = equal_param a b
  type_equal (ty_apply a l) b = equal_apply a (args_equal l) b
  type_equal (ty_ptr t) b = equal_ptr (type_equal t) b
  type_equal (ty_array t) b = equal_array (type_equal t) b

  pub args_equal : TypeList → TypeList → Bool
  args_equal end b = equal_end b
  args_equal (more t l) b = equal_more (type_equal t) (args_equal l) b

unfoldable pub type_assignable : TypeExpr → TypeExpr → Bool
type_assignable target actual = type_equal target actual

-- ===== src/TypeExpr/Tests.antt =====
-- Small types.
use objective_9c.Prelude.{◌≡◌, refl, ◌↔◌, some, true, false, codes, bytes_eq}
use objective_9c.Prelude.Int.{pos}
use objective_9c.TypeExpr.{
  TypeExpr, ty_name, ty_apply, ty_ptr, end, more, type_equal, type_assignable, canonical_type_name,
  equal_name, equal_ptr, equal_apply, equal_more, equal_end, same_name,
}
use objective_9c.TypeExpr.Equal.{canon, type_equal_lem}
use objective_9c.TypeExpr.Builtins.{type_builtin_count, type_builtin_name}
use objective_9c.TypeExpr.Texts.{
  type_render, type_dump, type_cname, type_abi, type_fmt, type_zero, separator, mangle_name,
  mangle_byte,
}
use objective_9c.TypeExpr.Dump.{type_dump_injective}
use objective_9c.TypeExpr.Names.{type_cname-clash}
use objective_9c.TypeExpr.Values.{type_assignable_values}

-- List<Tabula*>
abbrev list_of_tables : TypeExpr
list_of_tables = ty_apply (codes "List") (more (ty_ptr (ty_name (codes "Tabula"))) end)

abbrev list_of_tabula : TypeExpr
list_of_tabula = ty_apply (codes "List") (more (ty_ptr (ty_name (codes "tabula"))) end)

rendered : type_render list_of_tables ≡ codes "List<Tabula*>"
unfolding type_render separator
rendered = refl

dumped : type_dump list_of_tables ≡ codes "Apply(List,Ptr(Name(Tabula)))"
unfolding type_dump separator
dumped = refl

named : type_cname list_of_tables ≡ codes "List__Tabula_ptr"
unfolding type_cname separator mangle_name mangle_byte
named = refl

counted : type_builtin_count ≡ 30
unfolding type_builtin_count
counted = refl

thirteenth : type_builtin_name (pos 12) ≡ some (codes "string")
unfolding type_builtin_name
thirteenth = refl

same : type_equal list_of_tables list_of_tabula ≡ true
unfolding type_equal equal_name equal_ptr equal_apply equal_more equal_end same_name
    canonical_type_name bytes_eq
same = refl

type_equal_lem_example :
    (type_equal list_of_tables list_of_tabula ≡ true)
    ↔ (canon list_of_tables ≡ canon list_of_tabula)
type_equal_lem_example = type_equal_lem list_of_tables list_of_tabula

type_dump_injective_example : list_of_tables ≡ list_of_tables
type_dump_injective_example = type_dump_injective list_of_tables list_of_tables refl refl refl

type_cname-clash_example :
    (type_cname
        (ty_apply (codes "Map") (more (ty_name (codes "A")) (more (ty_name (codes "B")) end)))
      ≡ type_cname (
          ty_apply
            (codes "Map")
            (more (ty_apply (codes "A") (more (ty_name (codes "B")) end)) end)))
    × (type_equal
          (ty_apply (codes "Map") (more (ty_name (codes "A")) (more (ty_name (codes "B")) end)))
          (ty_apply
            (codes "Map")
            (more (ty_apply (codes "A") (more (ty_name (codes "B")) end)) end))
        ≡ false)
type_cname-clash_example = type_cname-clash (codes "Map") (codes "A") (codes "B")

assignable : type_assignable list_of_tables list_of_tabula ≡ true
unfolding type_assignable
assignable = same

type_assignable_values_example :
    (type_abi list_of_tables ≡ type_abi list_of_tabula)
    × (type_fmt list_of_tables ≡ type_fmt list_of_tabula)
    × (type_zero list_of_tables ≡ type_zero list_of_tabula)
type_assignable_values_example = type_assignable_values list_of_tables list_of_tabula assignable

pointer : type_abi (ty_ptr list_of_tables) ≡ codes "pointer"
unfolding type_abi
pointer = refl

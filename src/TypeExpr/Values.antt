-- ===== src/TypeExpr/Values.antt =====
-- The ABI class, the format and the zero value of a type.
use objective_9c.Prelude.{
  ◌≡◌, refl, sym, ap, ◌∙◌, Option, some, none, Bool, true, ◌&&◌, if◌then◌else◌, arith, Bytes,
  bytes_eq, bytes_eq_sound, codes, Bool-cases, inl, inr, bytes_eq_self,
}
use objective_9c.TypeExpr.{
  TypeExpr, nil_type, ty_name, ty_param, ty_apply, ty_ptr, ty_array, canonical_type_name,
  type_assignable,
}
use objective_9c.TypeExpr.Builtins.{
  Builtin, builtins, find_row, find_builtin, all_rows, find_row-All, type_builtin_abi,
  type_builtin_fmt, type_builtin_zero,
}
use objective_9c.TypeExpr.Equal.{canon, type_equal_lem}
use objective_9c.TypeExpr.Texts.{type_abi, type_fmt, type_zero, is_tabula, or_else, or_text}

canonical_twice : (n : Bytes) → canonical_type_name (canonical_type_name n) ≡ canonical_type_name n
unfolding canonical_type_name
canonical_twice n = elim (Bool-cases (bytes_eq n (codes "Tabula"))) [
  | inl table ↦ rw table (unfold bytes_eq in refl)
  | inr other ↦ rw (other, other) refl
]

find_builtin-canonical : (n : Bytes) → find_builtin (canonical_type_name n) ≡ find_builtin n
unfolding find_builtin
find_builtin-canonical n = ap (find_row builtins) (canonical_twice n)

builtin-canonical :
    (n : Bytes)
    → (type_builtin_abi (canonical_type_name n) ≡ type_builtin_abi n)
      × (type_builtin_fmt (canonical_type_name n) ≡ type_builtin_fmt n)
      × (type_builtin_zero (canonical_type_name n) ≡ type_builtin_zero n)
unfolding type_builtin_abi type_builtin_fmt type_builtin_zero
builtin-canonical n = (
  ap (λ (o : Option Builtin). elim o [ none ↦ none | some b ↦ some b.abi ])
      (find_builtin-canonical n),
  ap (λ (o : Option Builtin). elim o [ none ↦ none | some b ↦ some b.fmt ])
      (find_builtin-canonical n),
  ap (λ (o : Option Builtin). elim o [ none ↦ none | some b ↦ some b.zero_value ])
      (find_builtin-canonical n),
)

-- the three texts of a type
abbrev pub values : TypeExpr → Bytes × Bytes × Bytes
values t = (type_abi t, type_fmt t, type_zero t)

values-canon : (t : TypeExpr) → values (canon t) ≡ values t
unfolding type_abi type_fmt type_zero is_tabula
values-canon nil_type = refl
values-canon (ty_name n) = let (a, f, z) = builtin-canonical n in rw (a, f, z) refl
values-canon (ty_param n) = refl
values-canon (ty_apply n l) = rw (canonical_twice n) refl
values-canon (ty_ptr t) = refl
values-canon (ty_array t) = refl

-- Types that are assignable to each other have the same ABI class, print format and zero value.
pub type_assignable_values :
    (t u : TypeExpr)
    → type_assignable t u ≡ true
    → (type_abi t ≡ type_abi u) × (type_fmt t ≡ type_fmt u) × (type_zero t ≡ type_zero u)
unfolding type_assignable
type_assignable_values t u h =
    let (sound, _) = type_equal_lem t u in
    let same = sym (values-canon t) ∙ ap values (sound h) ∙ values-canon u in
    (ap (λ v. v.0) same, ap (λ v. v.1) same, ap (λ v. v.2) same)

-- a row whose class is "pointer" has nil for its zero value and %p for its format
is_pointer_row : Builtin → Bool
is_pointer_row b =
    if bytes_eq b.abi (codes "pointer")
    then bytes_eq b.zero_value (codes "nil") && bytes_eq b.fmt (codes "%p")
    else true

pointer_row :
    (b : Builtin)
    → is_pointer_row b ≡ true
    → b.abi ≡ codes "pointer"
    → (b.zero_value ≡ codes "nil") × (b.fmt ≡ codes "%p")
unfolding is_pointer_row
pointer_row b h e =
    let same : bytes_eq b.abi (codes "pointer") ≡ true = rw e (bytes_eq_self (codes "pointer")) in
    let zero_nil : bytes_eq b.zero_value (codes "nil") ≡ true = ground arith in
    let fmt_p : bytes_eq b.fmt (codes "%p") ≡ true = ground arith in
    (bytes_eq_sound b.zero_value (codes "nil") zero_nil, bytes_eq_sound b.fmt (codes "%p") fmt_p)

found_pointer :
    (o : Option Builtin)
    → ((b : Builtin) → o ≡ some b → is_pointer_row b ≡ true)
    → or_else (elim o [ none ↦ none | some b ↦ some b.abi ]) (codes "named") ≡ codes "pointer"
    → (or_text (elim o [ none ↦ none | some b ↦ some b.zero_value ]) (codes "0") ≡ codes "nil")
      × (or_text (elim o [ none ↦ none | some b ↦ some b.fmt ]) (codes "%p") ≡ codes "%p")
unfolding or_else or_text
found_pointer none good h = cc
found_pointer (some b) good h = let (z, f) = pointer_row b (good b refl) h in rw (z, f) (refl, refl)

builtins_pointer : all_rows is_pointer_row builtins ≡ true
unfolding is_pointer_row bytes_eq
builtins_pointer = refl

-- A type whose ABI class is "pointer" has nil for its zero value and is printed by %p.
pub type_abi-pointer :
    (t : TypeExpr)
    → type_abi t ≡ codes "pointer"
    → (type_zero t ≡ codes "nil") × (type_fmt t ≡ codes "%p")
unfolding type_abi type_fmt type_zero type_builtin_abi type_builtin_fmt type_builtin_zero
type_abi-pointer nil_type h = cc
type_abi-pointer (ty_name n) h =
    found_pointer (find_builtin n)
      (λ b e.
        find_row-All is_pointer_row builtins (canonical_type_name n) b builtins_pointer
          (unfold find_builtin in e))
      h
type_abi-pointer (ty_param n) h = cc
type_abi-pointer (ty_apply n l) h = (refl, refl)
type_abi-pointer (ty_ptr t) h = (refl, refl)
type_abi-pointer (ty_array t) h = cc

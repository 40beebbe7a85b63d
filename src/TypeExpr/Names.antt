-- ===== src/TypeExpr/Names.antt =====
-- The names that types have in the generated C.
use objective_9c.Prelude.{
  ℕ, ◌≡◌, refl, sym, ap, ◌∙◌, [], ◌∷◌, ◌++◌, append_assoc, append-nil, Bool, true, false, ◌&&◌,
  ◌==◌, not, arith, Bytes, codes,
}
use objective_9c.TypeExpr.{
  TypeExpr, nil_type, ty_name, ty_param, ty_apply, ty_ptr, ty_array, TypeList, end, more,
  type_equal, equal_apply, equal_name, equal_more, equal_end,
}
use objective_9c.TypeExpr.Texts.{type_cname, mangle_name, mangle_byte, mangle_list, separator}

-- Two different types can have one C name: `N<A,B>` and `N<A<B>>` do, whatever the names are, and
-- `type_equal` keeps them apart.
pub type_cname-clash :
    (n a b : Bytes)
    → let pair = ty_apply n (more (ty_name a) (more (ty_name b) end)) in
      let nested = ty_apply n (more (ty_apply a (more (ty_name b) end)) end) in
      (type_cname pair ≡ type_cname nested) × (type_equal pair nested ≡ false)
unfolding type_cname separator type_equal equal_apply equal_more equal_end equal_name
type_cname-clash n a b = (
  ap (λ z. mangle_name n ++ (codes "__" ++ (mangle_name a ++ (codes "__" ++ z))))
        (sym (append-nil (mangle_name b ++ [])))
      ∙ ap (λ z. mangle_name n ++ (codes "__" ++ z))
          (sym (append_assoc (mangle_name a) (codes "__" ++ (mangle_name b ++ [])) [])),
  ground arith,
)

-- a byte that stands in C names as it is
abbrev pub is_plain : Bytes → Bool
is_plain [] = true
is_plain (c ∷ s) = not (c == b'.') && (not (c == b'*') && is_plain s)

pub mangle_name_plain : (n : Bytes) → is_plain n ≡ true → mangle_name n ≡ n
unfolding mangle_name mangle_byte
mangle_name_plain [] h = refl
mangle_name_plain (c ∷ s) h = ground (arith, mangle_name_plain s)

mangle_byte_plain : (c : ℕ) → is_plain (mangle_byte c) ≡ true
unfolding mangle_byte
mangle_byte_plain c = ground arith

is_plain-append : (a b : Bytes) → is_plain (a ++ b) ≡ (is_plain a && is_plain b)
is_plain-append [] b = refl
is_plain-append (c ∷ s) b = ground (arith, is_plain-append s b)

is_plain-mangle_name : (n : Bytes) → is_plain (mangle_name n) ≡ true
unfolding mangle_name
is_plain-mangle_name [] = refl
is_plain-mangle_name (c ∷ s) =
    rw (is_plain-append (mangle_byte c) (mangle_name s), mangle_byte_plain c)
      (is_plain-mangle_name s)

append_plain : (a b : Bytes) → is_plain a ≡ true → is_plain b ≡ true → is_plain (a ++ b) ≡ true
append_plain a b h k = is_plain-append a b ∙ rw (h, k) refl

mutual
  unfolding type_cname separator

  -- No "." and no "*" of a type's names is left in its C name.
  cname_plain : (t : TypeExpr) → is_plain (type_cname t) ≡ true
  cname_plain nil_type = refl
  cname_plain (ty_name n) = is_plain-mangle_name n
  cname_plain (ty_param n) = is_plain-mangle_name n
  cname_plain (ty_apply n l) =
      append_plain (mangle_name n) (codes "__" ++ mangle_list true l) (is_plain-mangle_name n)
        (list_plain true l)
  cname_plain (ty_ptr t) = append_plain (type_cname t) (codes "_ptr") (cname_plain t) refl
  cname_plain (ty_array t) = append_plain (type_cname t) (codes "_arr") (cname_plain t) refl

  list_plain : (first : Bool) (l : TypeList) → is_plain (mangle_list first l) ≡ true
  list_plain first end = refl
  list_plain true (more t l) =
      append_plain (type_cname t) (mangle_list false l) (cname_plain t) (list_plain false l)
  list_plain false (more t l) =
      append_plain (type_cname t) (mangle_list false l) (cname_plain t) (list_plain false l)

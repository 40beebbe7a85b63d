-- ===== src/TypeExpr/Equal.antt =====
-- type_equal compares types up to the spelling of the table type.
use objective_9c.Prelude.{
  ◌≡◌, refl, sym, ap, ap₂, ◌∙◌, ◌↔◌, [], Bool, true, false, if◌then◌else◌, Bytes, bytes_eq,
  bytes_eq_sound, bytes_eq_self, subst,
}
use objective_9c.TypeExpr.{
  TypeExpr, nil_type, ty_name, ty_param, ty_apply, ty_ptr, ty_array, TypeList, end, more,
  canonical_type_name, same_name, type_equal, args_equal, type_assignable, equal_nil, equal_name,
  equal_param, equal_apply, equal_ptr, equal_array, equal_end, equal_more,
}

-- a type with every name spelled as the table spells it
abbrev mutual
  pub canon : TypeExpr → TypeExpr
  canon nil_type = nil_type
  canon (ty_name n) = ty_name (canonical_type_name n)
  canon (ty_param n) = ty_param (canonical_type_name n)
  canon (ty_apply n l) = ty_apply (canonical_type_name n) (canon_list l)
  canon (ty_ptr t) = ty_ptr (canon t)
  canon (ty_array t) = ty_array (canon t)

  pub canon_list : TypeList → TypeList
  canon_list end = end
  canon_list (more t l) = more (canon t) (canon_list l)

same_name_sound :
    (a b : Bytes) → same_name a b ≡ true → canonical_type_name a ≡ canonical_type_name b
unfolding same_name
same_name_sound a b h = bytes_eq_sound (canonical_type_name a) (canonical_type_name b) h

same_name_complete :
    (a b : Bytes) → canonical_type_name a ≡ canonical_type_name b → same_name a b ≡ true
unfolding same_name
same_name_complete a b h =
    subst (λ z. bytes_eq (canonical_type_name a) z ≡ true) h (bytes_eq_self (canonical_type_name a))

if_true : (a b : Bool) → (if a then b else false) ≡ true → (a ≡ true) × (b ≡ true)
if_true true b h = (refl, h)
if_true false b h = cc

mutual
  unfolding type_equal equal_nil equal_name equal_param equal_apply equal_ptr equal_array equal_end
      equal_more

  equal_sound : (t u : TypeExpr) → type_equal t u ≡ true → canon t ≡ canon u
  equal_sound nil_type nil_type h = refl
  equal_sound nil_type (ty_name n) h = cc
  equal_sound nil_type (ty_param n) h = cc
  equal_sound nil_type (ty_apply n l) h = cc
  equal_sound nil_type (ty_ptr y) h = cc
  equal_sound nil_type (ty_array y) h = cc
  equal_sound (ty_name m) nil_type h = cc
  equal_sound (ty_name m) (ty_name n) h = ap ty_name (same_name_sound m n h)
  equal_sound (ty_name m) (ty_param n) h = cc
  equal_sound (ty_name m) (ty_apply n l) h = cc
  equal_sound (ty_name m) (ty_ptr y) h = cc
  equal_sound (ty_name m) (ty_array y) h = cc
  equal_sound (ty_param m) nil_type h = cc
  equal_sound (ty_param m) (ty_name n) h = cc
  equal_sound (ty_param m) (ty_param n) h = ap ty_param (same_name_sound m n h)
  equal_sound (ty_param m) (ty_apply n l) h = cc
  equal_sound (ty_param m) (ty_ptr y) h = cc
  equal_sound (ty_param m) (ty_array y) h = cc
  equal_sound (ty_apply m k) nil_type h = cc
  equal_sound (ty_apply m k) (ty_name n) h = cc
  equal_sound (ty_apply m k) (ty_param n) h = cc
  equal_sound (ty_apply m k) (ty_apply n l) h =
      let (e, r) = if_true (same_name m n) (args_equal k l) h in
      ap₂ ty_apply (same_name_sound m n e) (args_sound k l r)
  equal_sound (ty_apply m k) (ty_ptr y) h = cc
  equal_sound (ty_apply m k) (ty_array y) h = cc
  equal_sound (ty_ptr x) nil_type h = cc
  equal_sound (ty_ptr x) (ty_name n) h = cc
  equal_sound (ty_ptr x) (ty_param n) h = cc
  equal_sound (ty_ptr x) (ty_apply n l) h = cc
  equal_sound (ty_ptr x) (ty_ptr y) h = ap ty_ptr (equal_sound x y h)
  equal_sound (ty_ptr x) (ty_array y) h = cc
  equal_sound (ty_array x) nil_type h = cc
  equal_sound (ty_array x) (ty_name n) h = cc
  equal_sound (ty_array x) (ty_param n) h = cc
  equal_sound (ty_array x) (ty_apply n l) h = cc
  equal_sound (ty_array x) (ty_ptr y) h = cc
  equal_sound (ty_array x) (ty_array y) h = ap ty_array (equal_sound x y h)

  args_sound : (k l : TypeList) → args_equal k l ≡ true → canon_list k ≡ canon_list l
  args_sound end end h = refl
  args_sound end (more y l) h = cc
  args_sound (more x k) end h = cc
  args_sound (more x k) (more y l) h =
      let (e, r) = if_true (type_equal x y) (args_equal k l) h in
      ap₂ more (equal_sound x y e) (args_sound k l r)

-- what a type holds, to read equations between types
abbrev name_of : TypeExpr → Bytes
name_of nil_type = []
name_of (ty_name n) = n
name_of (ty_param n) = n
name_of (ty_apply n l) = n
name_of (ty_ptr t) = []
name_of (ty_array t) = []

abbrev args_of : TypeExpr → TypeList
args_of nil_type = end
args_of (ty_name n) = end
args_of (ty_param n) = end
args_of (ty_apply n l) = l
args_of (ty_ptr t) = end
args_of (ty_array t) = end

abbrev base_of : TypeExpr → TypeExpr
base_of nil_type = nil_type
base_of (ty_name n) = nil_type
base_of (ty_param n) = nil_type
base_of (ty_apply n l) = nil_type
base_of (ty_ptr t) = t
base_of (ty_array t) = t

abbrev first_of : TypeList → TypeExpr
first_of end = nil_type
first_of (more t l) = t

abbrev rest_of : TypeList → TypeList
rest_of end = end
rest_of (more t l) = l

mutual
  unfolding type_equal equal_nil equal_name equal_param equal_apply equal_ptr equal_array equal_end
      equal_more

  equal_complete : (t u : TypeExpr) → canon t ≡ canon u → type_equal t u ≡ true
  equal_complete nil_type nil_type h = refl
  equal_complete nil_type (ty_name n) h = cc
  equal_complete nil_type (ty_param n) h = cc
  equal_complete nil_type (ty_apply n l) h = cc
  equal_complete nil_type (ty_ptr y) h = cc
  equal_complete nil_type (ty_array y) h = cc
  equal_complete (ty_name m) nil_type h = cc
  equal_complete (ty_name m) (ty_name n) h = same_name_complete m n (ap name_of h)
  equal_complete (ty_name m) (ty_param n) h = cc
  equal_complete (ty_name m) (ty_apply n l) h = cc
  equal_complete (ty_name m) (ty_ptr y) h = cc
  equal_complete (ty_name m) (ty_array y) h = cc
  equal_complete (ty_param m) nil_type h = cc
  equal_complete (ty_param m) (ty_name n) h = cc
  equal_complete (ty_param m) (ty_param n) h = same_name_complete m n (ap name_of h)
  equal_complete (ty_param m) (ty_apply n l) h = cc
  equal_complete (ty_param m) (ty_ptr y) h = cc
  equal_complete (ty_param m) (ty_array y) h = cc
  equal_complete (ty_apply m k) nil_type h = cc
  equal_complete (ty_apply m k) (ty_name n) h = cc
  equal_complete (ty_apply m k) (ty_param n) h = cc
  equal_complete (ty_apply m k) (ty_apply n l) h =
      rw (same_name_complete m n (ap name_of h)) (args_complete k l (ap args_of h))
  equal_complete (ty_apply m k) (ty_ptr y) h = cc
  equal_complete (ty_apply m k) (ty_array y) h = cc
  equal_complete (ty_ptr x) nil_type h = cc
  equal_complete (ty_ptr x) (ty_name n) h = cc
  equal_complete (ty_ptr x) (ty_param n) h = cc
  equal_complete (ty_ptr x) (ty_apply n l) h = cc
  equal_complete (ty_ptr x) (ty_ptr y) h = equal_complete x y (ap base_of h)
  equal_complete (ty_ptr x) (ty_array y) h = cc
  equal_complete (ty_array x) nil_type h = cc
  equal_complete (ty_array x) (ty_name n) h = cc
  equal_complete (ty_array x) (ty_param n) h = cc
  equal_complete (ty_array x) (ty_apply n l) h = cc
  equal_complete (ty_array x) (ty_ptr y) h = cc
  equal_complete (ty_array x) (ty_array y) h = equal_complete x y (ap base_of h)

  args_complete : (k l : TypeList) → canon_list k ≡ canon_list l → args_equal k l ≡ true
  args_complete end end h = refl
  args_complete end (more y l) h = cc
  args_complete (more x k) end h = cc
  args_complete (more x k) (more y l) h =
      rw (equal_complete x y (ap first_of h)) (args_complete k l (ap rest_of h))

-- `type_equal` says of two types whether they are the same up to the spelling of `Tabula`: of any two,
-- with nil among them, however deep.
pub type_equal_lem : (t u : TypeExpr) → (type_equal t u ≡ true) ↔ (canon t ≡ canon u)
type_equal_lem t u = (equal_sound t u, equal_complete t u)

-- So it is an equivalence: what is assignable one way is assignable the other way, to itself, and along
-- a chain.
pub type_assignable_laws :
    (t u v : TypeExpr)
    → (type_assignable t t ≡ true)
      × (type_assignable t u ≡ true → type_assignable u t ≡ true)
      × (type_assignable t u ≡ true → type_assignable u v ≡ true → type_assignable t v ≡ true)
unfolding type_assignable
type_assignable_laws t u v = (
  equal_complete t t refl,
  (λ h. equal_complete u t (sym (equal_sound t u h))),
  (λ h k. equal_complete t v (equal_sound t u h ∙ equal_sound u v k)),
)

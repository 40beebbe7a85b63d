-- ===== src/TypeExpr/Dump.antt =====
-- A dump of a type can be read back.
use objective_9c.Prelude.{
  ℕ, zero, suc, ◌≤◌, max, ◌≡◌, refl, sym, ap, ◌∙◌, [], ◌∷◌, ◌++◌, append_assoc, Option, some, none,
  Bool, true, false, ◌&&◌, not, ◌==◌, if◌then◌else◌, arith, Bytes, codes, ◌||◌,
}
use objective_9c.TypeExpr.{
  TypeExpr, nil_type, ty_name, ty_param, ty_apply, ty_ptr, ty_array, TypeList, end, more,
}
use objective_9c.TypeExpr.Texts.{separator, type_dump, dump_list}

-- names without "," and ")", at every place of a type
abbrev pub is_clean_name : Bytes → Bool
is_clean_name [] = true
is_clean_name (c ∷ s) = not (c == b',') && (not (c == b')') && is_clean_name s)

abbrev mutual
  pub is_clean : TypeExpr → Bool
  is_clean nil_type = true
  is_clean (ty_name n) = is_clean_name n
  is_clean (ty_param n) = is_clean_name n
  is_clean (ty_apply n l) = is_clean_name n && is_clean_list l
  is_clean (ty_ptr t) = is_clean t
  is_clean (ty_array t) = is_clean t

  pub is_clean_list : TypeList → Bool
  is_clean_list end = true
  is_clean_list (more t l) = is_clean t && is_clean_list l

abbrev mutual
  pub depth : TypeExpr → ℕ
  depth nil_type = 1
  depth (ty_name n) = 1
  depth (ty_param n) = 1
  depth (ty_apply n l) = suc (depth_list l)
  depth (ty_ptr t) = suc (depth t)
  depth (ty_array t) = suc (depth t)

  pub depth_list : TypeList → ℕ
  depth_list end = 1
  depth_list (more t l) = suc (max (depth t) (depth_list l))

-- A reader of dumps. The text after a prefix:
abbrev strip : Bytes → Bytes → Option Bytes
strip [] s = some s
strip (p ∷ ps) [] = none
strip (p ∷ ps) (c ∷ s) = if p == c then strip ps s else none

-- the name up to a "," or ")", and what follows
abbrev span : Bytes → Bytes × Bytes
span [] = ([], [])
span (c ∷ s) =
    let rest = span s in
    if c == b',' then ([], c ∷ s) else if c == b')' then ([], c ∷ s) else (c ∷ rest.0, rest.1)

data Tag : Type 0 where
  tag_nil tag_name tag_param tag_apply tag_ptr tag_array : Tag

abbrev try_tag : Tag → Bytes → Bytes → Option (Tag × Bytes) → Option (Tag × Bytes)
try_tag t p s later = elim (strip p s) [ none ↦ later | some r ↦ some (t, r) ]

tag_of : Bytes → Option (Tag × Bytes)
tag_of s = try_tag tag_nil (codes "Nil") s (
    try_tag tag_name (codes "Name(") s (
      try_tag tag_param (codes "Param(") s (
        try_tag tag_apply (codes "Apply(") s
          (try_tag tag_ptr (codes "Ptr(") s (try_tag tag_array (codes "Array(") s none)))))

abbrev close : Bytes → TypeExpr → Option (TypeExpr × Bytes)
close [] t = none
close (c ∷ s) t = if c == b')' then some (t, s) else none

abbrev Reader : Type 0
Reader = Bytes → Option (TypeExpr × Bytes)

abbrev wrap : (TypeExpr → TypeExpr) → Option (TypeExpr × Bytes) → Option (TypeExpr × Bytes)
wrap f none = none
wrap f (some (t, s)) = close s (f t)

abbrev read_args : (Bytes → Option (TypeList × Bytes)) → Bytes → Bytes → Option (TypeExpr × Bytes)
read_args list n [] = none
read_args list n (c ∷ s) =
    if c == b',' then elim (list s) [ none ↦ none | some (l, q) ↦ close q (ty_apply n l) ] else none

-- the list up to its ")", which it leaves; `first` where no "," is due
abbrev read_first : Bool → Bytes → Option Bytes
read_first first [] = none
read_first true (c ∷ s) = if c == b')' then none else some (c ∷ s)
read_first false (c ∷ s) = if c == b',' then some s else none

abbrev read_body :
    Reader → (Bytes → Option (TypeList × Bytes)) → Option (Tag × Bytes) → Option (TypeExpr × Bytes)
read_body one list none = none
read_body one list (some (tag_nil, s)) = some (nil_type, s)
read_body one list (some (tag_name, s)) = close (span s).1 (ty_name (span s).0)
read_body one list (some (tag_param, s)) = close (span s).1 (ty_param (span s).0)
read_body one list (some (tag_apply, s)) = read_args list (span s).0 (span s).1
read_body one list (some (tag_ptr, s)) = wrap ty_ptr (one s)
read_body one list (some (tag_array, s)) = wrap ty_array (one s)

abbrev read_more :
    (Bytes → Option (TypeList × Bytes)) → Option (TypeExpr × Bytes) → Option (TypeList × Bytes)
read_more list none = none
read_more list (some (t, s)) = elim (list s) [ none ↦ none | some (l, q) ↦ some (more t l, q) ]

abbrev read_next :
    Reader → (Bytes → Option (TypeList × Bytes)) → Bytes → Option Bytes → Option (TypeList × Bytes)
read_next one list s none = some (end, s)
read_next one list s (some q) = read_more list (one q)

mutual
  unfolding tag_of

  pub read : ℕ → Bytes → Option (TypeExpr × Bytes)
  read zero s = none
  read (suc f) s = read_body (read f) (read_list f true) (tag_of s)

  pub read_list : ℕ → Bool → Bytes → Option (TypeList × Bytes)
  read_list zero first s = none
  read_list (suc f) first s = read_next (read f) (read_list f false) s (read_first first s)

both_true : (a b : Bool) → (a && b) ≡ true → (a ≡ true) × (b ≡ true)
both_true true b h = (refl, h)
both_true false b h = cc

is_end : ℕ → Bool
is_end c = (c == b',') || (c == b')')

span-append :
    (n : Bytes) (c : ℕ) (r : Bytes)
    → is_clean_name n ≡ true
    → is_end c ≡ true
    → span (n ++ (c ∷ r)) ≡ (n, c ∷ r)
unfolding is_end
span-append [] c r h e = ground arith
span-append (x ∷ n) c r h e = ground (arith, span-append n c r)

-- what the reader does behind a name
read_name :
    (g : Bytes → TypeExpr) (n r : Bytes)
    → is_clean_name n ≡ true
    → close (span ((n ++ codes ")") ++ r)).1 (g (span ((n ++ codes ")") ++ r)).0) ≡ some (g n, r)
unfolding is_end
read_name g n r h =
    let e : (n ++ codes ")") ++ r ≡ n ++ (b')' ∷ r) = append_assoc n (codes ")") r in
    rw (e, span-append n b')' r h refl) refl

read_first-type_dump :
    (t : TypeExpr) (r : Bytes) → read_first true (type_dump t ++ r) ≡ some (type_dump t ++ r)
unfolding type_dump
read_first-type_dump nil_type r = refl
read_first-type_dump (ty_name n) r = refl
read_first-type_dump (ty_param n) r = refl
read_first-type_dump (ty_apply n l) r = refl
read_first-type_dump (ty_ptr t) r = refl
read_first-type_dump (ty_array t) r = refl

mutual
  unfolding type_dump separator tag_of is_end read

  read-type_dump :
      (t : TypeExpr) (f : ℕ) (r : Bytes)
      → depth t ≤ f
      → is_clean t ≡ true
      → read f (type_dump t ++ r) ≡ some (t, r)
  read-type_dump nil_type zero r h k = elim h [ ]
  read-type_dump nil_type (suc f) r h k = refl
  read-type_dump (ty_name n) zero r h k = elim h [ ]
  read-type_dump (ty_name n) (suc f) r h k = read_name ty_name n r k
  read-type_dump (ty_param n) zero r h k = elim h [ ]
  read-type_dump (ty_param n) (suc f) r h k = read_name ty_param n r k
  read-type_dump (ty_apply n l) zero r h k = elim h [ ]
  read-type_dump (ty_apply n l) (suc f) r h k =
      let (name, args) = both_true (is_clean_name n) (is_clean_list l) k in
      let s = b',' ∷ (dump_list true l ++ (b')' ∷ r)) in
      let e : (n ++ (b',' ∷ (dump_list true l ++ codes ")"))) ++ r ≡ n ++ s =
        append_assoc n (b',' ∷ (dump_list true l ++ codes ")")) r
        ∙ ap (λ z. n ++ (b',' ∷ z)) (append_assoc (dump_list true l) (codes ")") r) in
      rw
        (
          e,
          span-append n b',' (dump_list true l ++ (b')' ∷ r)) name refl,
          read-dump_list l f true r (omega arith) args,
        )
        refl
  read-type_dump (ty_ptr t) zero r h k = elim h [ ]
  read-type_dump (ty_ptr t) (suc f) r h k =
      let e : (type_dump t ++ codes ")") ++ r ≡ type_dump t ++ (b')' ∷ r) =
        append_assoc (type_dump t) (codes ")") r in
      rw (e, read-type_dump t f (b')' ∷ r) (omega arith) k) refl
  read-type_dump (ty_array t) zero r h k = elim h [ ]
  read-type_dump (ty_array t) (suc f) r h k =
      let e : (type_dump t ++ codes ")") ++ r ≡ type_dump t ++ (b')' ∷ r) =
        append_assoc (type_dump t) (codes ")") r in
      rw (e, read-type_dump t f (b')' ∷ r) (omega arith) k) refl

  read-dump_list :
      (l : TypeList) (f : ℕ) (first : Bool) (r : Bytes)
      → depth_list l ≤ f
      → is_clean_list l ≡ true
      → read_list f first (dump_list first l ++ (b')' ∷ r)) ≡ some (l, b')' ∷ r)
  read-dump_list end zero first r h k = elim h [ ]
  read-dump_list end (suc f) true r h k = refl
  read-dump_list end (suc f) false r h k = refl
  read-dump_list (more t l) zero first r h k = elim h [ ]
  read-dump_list (more t l) (suc f) true r h k =
      let (one, others) = both_true (is_clean t) (is_clean_list l) k in
      let e : (type_dump t ++ dump_list false l) ++ (b')' ∷ r)
          ≡ type_dump t ++ (dump_list false l ++ (b')' ∷ r)) =
        append_assoc (type_dump t) (dump_list false l) (b')' ∷ r) in
      rw
        (
          e,
          read_first-type_dump t (dump_list false l ++ (b')' ∷ r)),
          read-type_dump t f (dump_list false l ++ (b')' ∷ r)) (omega arith) one,
          read-dump_list l f false r (omega arith) others,
        )
        refl
  read-dump_list (more t l) (suc f) false r h k =
      let (one, others) = both_true (is_clean t) (is_clean_list l) k in
      let e : (type_dump t ++ dump_list false l) ++ (b')' ∷ r)
          ≡ type_dump t ++ (dump_list false l ++ (b')' ∷ r)) =
        append_assoc (type_dump t) (dump_list false l) (b')' ∷ r) in
      rw
        (
          e,
          read-type_dump t f (dump_list false l ++ (b')' ∷ r)) (omega arith) one,
          read-dump_list l f false r (omega arith) others,
        )
        refl

-- A dump says all of a type: of two types whose names are free of "," and ")", only equal ones have
-- the same dump.
pub type_dump_injective :
    (t u : TypeExpr) → is_clean t ≡ true → is_clean u ≡ true → type_dump t ≡ type_dump u → t ≡ u
type_dump_injective t u h k e =
    let f = max (depth t) (depth u) in
    let one = read-type_dump t f [] (omega arith) h in
    let two = read-type_dump u f [] (omega arith) k in
    let a : Option (TypeExpr × Bytes) = some (t, []) in
    let b : Option (TypeExpr × Bytes) = some (u, []) in
    let same : a ≡ b = sym one ∙ ap (λ z. read f (z ++ [])) e ∙ two in cc

-- ===== src/DataStack/Bounds.antt =====
-- The pointers of a data stack stay in order, and what alloc gives out.
use objective_9c.Prelude.{
  ℕ, ◌+◌, ◌-◌, ◌%◌, ◌^◌, ◌≤◌, ◌<◌, ◌≡◌, refl, sym, ap, ◌∙◌, ◌≢◌, ◌⊎◌, inl, inr, false, ◌||◌, ◌==◌,
  ltb, arith, Bool-cases, mod-lt, mod-eq_of_lt, if_ind, mod_self, mod-add-mod,
}
use objective_9c.DataStack.{DataStack, alloc, take_block, align_up, alignment, reset}

-- base, top and limit in order, in an address space of 2 ^ 64 bytes
pub record IsValid (ds : DataStack) : Type 0 where
  pub base_pos : 0 < ds.base
  pub low : ds.base ≤ ds.top
  pub high : ds.top ≤ ds.limit
  pub space : ds.limit < 2 ^ 64

pub alignment_pos : (a : ℕ) → 0 < alignment a
unfolding alignment
alignment_pos a = ground arith

-- `align_up` reaches the next multiple
pub align_up_lem :
    (p a : ℕ)
    → 0 < a
    → p + a < 2 ^ 64
    → (p ≤ align_up p a) × (align_up p a < p + a) × (align_up p a % a ≡ 0)
unfolding align_up
align_up_lem p a pos h = elim (Bool-cases (p % a == 0)) [
  | inl whole ↦ rw whole (omega arith, omega arith, ground arith)
  | inr part ↦
      let r : p % a < a = mod-lt p pos in
      let ne : p % a ≢ 0 = ground arith in
      let e : (p + (a - p % a)) % 2 ^ 64 ≡ p + (a - p % a) = mod-eq_of_lt (omega arith) in
      let sum : p % a + (a - p % a) ≡ a = omega arith in
      let whole : (p + (a - p % a)) % a ≡ 0 =
        sym (mod-add-mod p a (a - p % a)) ∙ ap (λ z. z % a) sum ∙ mod_self a in
      rw (part, e) (omega arith, omega arith, whole)
]

-- a block given out: where it stands, and the stack that is left
pub record Given (ds : DataStack) (size align p : ℕ) (ds' : DataStack) : Type 0 where
  pub behind : ds.top ≤ p
  pub near : p < ds.top + alignment align
  pub aligned : p % alignment align ≡ 0
  pub fits : p + size ≤ ds.limit
  pub top_eq : ds'.top ≡ p + size
  pub base_eq : ds'.base ≡ ds.base
  pub limit_eq : ds'.limit ≡ ds.limit
  pub mem_eq : ds'.mem ≡ ds.mem

take_block_lem :
    (ds : DataStack) (size align p : ℕ)
    → IsValid ds
    → ds.top ≤ p
    → p < ds.top + alignment align
    → p % alignment align ≡ 0
    → p + size < 2 ^ 64
    → (take_block ds p size ≡ (0, ds))
      ⊎ ((ds' : DataStack) × (take_block ds p size ≡ (p, ds')) × Given ds size align p ds')
unfolding take_block
take_block_lem ds size align p v behind near aligned h =
    let e : (p + size) % 2 ^ 64 ≡ p + size = mod-eq_of_lt h in
    elim (Bool-cases (ltb ds.limit ((p + size) % 2 ^ 64))) [
      | inl full ↦ inl (rw full refl)
      | inr room ↦ rw room (
          inr (
            _,
            refl,
            record {
              behind = behind;
              near = near;
              aligned = aligned;
              fits = ground (arith, e, room);
              top_eq = e;
              base_eq = refl;
              limit_eq = refl;
              mem_eq = refl;
            },
          ))
    ]

-- `o9_datastack_alloc` either gives nil and leaves the stack as it was, or gives the first aligned
-- block of that size behind the top, which ends within the stack, and moves the top to its end. The
-- top, the size and the alignment together stay below 2 ^ 64, and the size is not 0.
pub alloc_lem :
    (ds : DataStack) (size align : ℕ)
    → IsValid ds
    → 0 < size
    → ds.top + alignment align + size < 2 ^ 64
    → (alloc ds size align ≡ (0, ds))
      ⊎ ((p : ℕ) × (ds' : DataStack) × (alloc ds size align ≡ (p, ds')) × Given ds size align p ds')
unfolding alloc
alloc_lem ds size align v pos h =
    let (behind, near, aligned) =
      align_up_lem ds.top (alignment align) (alignment_pos align) (omega arith) in
    let p = align_up ds.top (alignment align) in
    let some_bytes : (size == 0) ≡ false = ground arith in
    rw some_bytes (elim (take_block_lem ds size align p v behind near aligned (omega arith)) [
      | inl full ↦ inl full
      | inr (ds', e, g) ↦ inr (p, ds', e, g)
    ])

pub Given-IsValid :
    {ds ds' : DataStack} {size align p : ℕ} → IsValid ds → Given ds size align p ds' → IsValid ds'
Given-IsValid {ds} {ds'} {size} {align} {p} v g = record {
  base_pos = rw (Given.base_eq g) (IsValid.base_pos v);
  low = omega arith;
  high = omega arith;
  space = omega arith;
}

pub reset-IsValid : (ds : DataStack) (m : ℕ) → IsValid ds → IsValid (reset ds m)
unfolding reset
reset-IsValid ds m v =
    if_ind IsValid (m == 0 || (ltb m ds.base || ltb ds.limit m)) ds _ (λ out. v)
      (λ inside. record {
        base_pos = v.base_pos;
        low = ground arith;
        high = ground arith;
        space = v.space;
      })

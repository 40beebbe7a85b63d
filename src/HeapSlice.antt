-- ===== src/HeapSlice.antt =====
-- The slices of o9_runtime.c on the heap: o9_slice_init, o9_slice_append, o9_slice_get, o9_slice_set
-- and o9_slice_setgrow. The storage is a function from indices to elements, each of `elemsize` bytes;
-- `zero` is the element of zero bytes. realloc keeps what was stored below the old capacity and leaves
-- `junk` above it. The pointers to a slice or a value are not nil, elemsize is not 0, and no
-- product of a capacity and a size wraps.
pub mod Laws
pub mod Tests
use objective_9c.Prelude.{
  ℕ, zero, suc, ◌+◌, ◌-◌, ◌*◌, Option, some, none, Bool, true, false, ◌&&◌, ◌==◌, ltb, leb,
  if◌then◌else◌,
}
use objective_9c.Prelude.Int.{ℤ, pos, negsuc}

-- `O9Slice` with its storage
pub record Slice (A : Type 0) : Type 0 where
  pub cells : ℕ → A
  pub len : ℕ
  pub cap : ℕ

-- the loop `while(idx >= newcap) newcap *= 2`, with the rounds that are left
unfoldable pub double : ℕ → ℕ → ℕ → ℕ
double zero idx c = c
double (suc rounds) idx c = if leb c idx then double rounds idx (c * 2) else c

-- the new capacity: from 8 or more on, idx + 1 rounds are enough
unfoldable pub capacity_for : ℕ → ℕ → ℕ
capacity_for idx c = double (idx + 1) idx (if c == 0 then 8 else c)

module _ {A : Type 0} where
  unfoldable pub put : (ℕ → A) → ℕ → A → ℕ → A
  put cells i v j = if j == i then v else cells j

  -- realloc to `cap` elements and more
  unfoldable pub grown : (ℕ → A) → (ℕ → A) → ℕ → ℕ → A
  grown junk cells cap j = if ltb j cap then cells j else junk j

  -- memset of the elements from `low` on, below `high`, to zero
  unfoldable pub clear : A → (ℕ → A) → ℕ → ℕ → ℕ → A
  clear z cells low high j = if leb low j && ltb j high then z else cells j

  unfoldable pub init : (ℕ → A) → Slice A
  init junk = record { cells = junk; len = 0; cap = 0 }

  -- `none`: realloc fails, its nil is stored, and the element is written through it.
  unfoldable pub append : (ℕ → A) → Bool → Slice A → A → Option (Slice A)
  append junk memory s v =
      if leb s.cap s.len
      then if memory
        then some (record {
          cells = put (grown junk s.cells s.cap) s.len v;
          len = s.len + 1;
          cap = if s.cap == 0 then 8 else s.cap * 2;
        })
        else none
      else some (record s { cells = put s.cells s.len v; len = s.len + 1 })

  unfoldable pub get : Slice A → ℤ → Option A
  get s (negsuc n) = none
  get s (pos i) = if leb s.len i then none else some (s.cells i)

  unfoldable pub set_at : Slice A → ℤ → A → Slice A
  set_at s (negsuc n) v = s
  set_at s (pos i) v = if leb s.len i then s else record s { cells = put s.cells i v }

  -- the storage made large enough for `idx`, or none if realloc fails
  unfoldable pub ensure : A → (ℕ → A) → Bool → Slice A → ℕ → Option (Slice A)
  ensure z junk memory s idx =
      if leb s.cap idx
      then if memory
        then some (record s {
          cells = clear z (grown junk s.cells s.cap) s.cap (capacity_for idx s.cap);
          cap = capacity_for idx s.cap;
        })
        else none
      else some s

  -- the gap cleared, and the element written
  unfoldable pub store : A → Slice A → ℕ → A → Slice A
  store z s idx v =
      if leb s.len idx
      then record s { cells = put (clear z s.cells s.len (idx + 1)) idx v; len = idx + 1 }
      else record s { cells = put s.cells idx v }

  unfoldable pub setgrow : A → (ℕ → A) → Bool → Slice A → ℤ → A → Slice A
  setgrow z junk memory s (negsuc n) v = s
  setgrow z junk memory s (pos idx) v = elim (ensure z junk memory s idx) [
    | none ↦ s
    | some s' ↦ store z s' idx v
  ]

-- ===== src/StringObject.antt =====
-- The life of an O9String on the heap of o9_runtime.c: o9_string_new, o9_string_from_c,
-- o9_string_retain and o9_string_release. `ref` is a long, as a ℤ; it is negative for a string on a data
-- stack. `ulong` has 32 bits.
pub mod Laws
pub mod Tests
use objective_9c.Prelude.{
  ℕ, zero, suc, ◌+◌, ◌-◌, ◌*◌, ◌/◌, ◌^◌, Option, some, none, Bool, true, false, ◌&&◌, ◌==◌, ltb,
  leb, if◌then◌else◌, Bytes, length, take,
}
use objective_9c.Prelude.Int.{ℤ, pos, negsuc}

pub record StringObject : Type 0 where
  -- the `len` bytes at `data`, and the size of that block
  pub bytes : Bytes
  pub cap : ℕ
  pub ref : ℤ
  pub freed : Bool

-- ~0UL
abbrev pub max_ulong : ℕ
max_ulong = 2 ^ 32 - 1

-- the loop over the allocator's size classes, with the rounds that are left
unfoldable pub size_class : ℕ → ℕ → ℕ → ℕ
size_class zero len c = c
size_class (suc rounds) len c =
    if leb c len
    then if ltb (max_ulong / 2) c then len + 1 else size_class rounds len (c * 2)
    else c

-- `source` is what stands at `data`, none for nil; `junk` is what the new memory holds. `memory` says
-- whether both allocations succeed.
unfoldable pub string_new : Bool → Bytes → Option Bytes → ℕ → Option StringObject
string_new memory junk source len =
    if ltb (max_ulong - 1) len
    then none
    else if memory
    then some (record {
      bytes = take len (elim source [ none ↦ junk | some s ↦ s ]);
      cap = size_class (len + 1) len 32;
      ref = pos 1;
      freed = false;
    })
    else none

unfoldable pub string_from_c : Bool → Bytes → Option Bytes → Option StringObject
string_from_c memory junk none = string_new memory junk none 0
string_from_c memory junk (some s) = string_new memory junk (some s) (length s)

-- after the atomic decrement
unfoldable pub drop_ref : StringObject → ℕ → StringObject
drop_ref s zero = record s { ref = negsuc 0 }
drop_ref s (suc zero) = record s { ref = pos 0; freed = true }
drop_ref s (suc (suc n)) = record s { ref = pos (suc n) }

unfoldable pub retain : StringObject → StringObject
retain s = elim s.ref [ negsuc n ↦ s | pos n ↦ record s { ref = pos (suc n) } ]

unfoldable pub release : StringObject → StringObject
release s = elim s.ref [ negsuc n ↦ s | pos n ↦ drop_ref s n ]

-- o9_string_take: the block of a C string becomes the string's
unfoldable pub string_take : Bool → Option Bytes → Option StringObject
string_take memory none = none
string_take memory (some s) =
    if memory
    then some (record { bytes = s; cap = length s + 1; ref = pos 1; freed = false })
    else none

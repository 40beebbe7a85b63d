-- ===== src/DataStack.antt =====
-- The data stack of o9_runtime.c (O9DataStack, the o9_datastack functions and the o9_frame functions)
-- on an address space of 2 ^ 64 bytes. Pointers are addresses and nil is 0; the pointers to a stack,
-- a frame, a slice or an element are not nil. `mem` is what memory holds. A string made on the stack
-- is described by the fields that its struct is set to.
pub mod Bounds
pub mod Blocks
pub mod Frame
pub mod Build
pub mod Tests
use objective_9c.Prelude.{
  ℕ, zero, suc, ◌+◌, ◌-◌, ◌*◌, ◌/◌, ◌%◌, ◌^◌, Option, some, none, Bool, true, false, ◌&&◌, ◌||◌,
  not, ◌==◌, ltb, leb, if◌then◌else◌, max,
}
use objective_9c.Prelude.Int.{ℤ, pos, negsuc}

-- sizeof(void*), and sizeof(O9String)
abbrev pub word : ℕ
word = 8

abbrev pub string_size : ℕ
string_size = 24

abbrev pub Memory : Type 0
Memory = ℕ → ℕ

-- `O9DataStack`, with the memory that it and its clients write
pub record DataStack : Type 0 where
  pub base : ℕ
  pub top : ℕ
  pub limit : ℕ
  pub is_growing : Bool
  pub grow_head : ℕ
  pub mem : Memory

-- `O9Slice`
pub record Slice : Type 0 where
  pub data_ptr : ℕ
  pub len : ℕ
  pub cap : ℤ
  pub elemsize : ℕ

-- `O9String` as the stack makes it
pub record StackString : Type 0 where
  pub addr : ℕ
  pub data_ptr : ℕ
  pub len : ℕ
  pub ref : ℤ

-- memmove
unfoldable pub memmove : Memory → ℕ → ℕ → ℕ → Memory
memmove mem dst src n a = if leb dst a && ltb a (dst + n) then mem (src + (a - dst)) else mem a

unfoldable pub put_byte : Memory → ℕ → ℕ → Memory
put_byte mem dst b a = if a == dst then b else mem a

-- the capacity that is used: at least 1024, in whole words
unfoldable pub capacity_of : ℕ → ℕ
capacity_of capacity =
    let c = if ltb capacity 1024 then 1024 else capacity in ((c + 7) % 2 ^ 64) / 8 * 8

-- `memory` says whether the struct was allocated; `buf` is what malloc returns for the buffer.
unfoldable pub create : Memory → ℕ → Bool → ℕ → Option DataStack
create mem capacity memory buf =
    if not memory || buf == 0
    then none
    else some (record {
      base = buf;
      top = buf;
      limit = buf + capacity_of capacity;
      is_growing = false;
      grow_head = 0;
      mem = mem;
    })

unfoldable pub mark : DataStack → ℕ
mark ds = ds.top

unfoldable pub reset : DataStack → ℕ → DataStack
reset ds m =
    if m == 0 || (ltb m ds.base || ltb ds.limit m)
    then ds
    else record ds { top = m; is_growing = false; grow_head = 0 }

-- `p` moved up to a multiple of `align`
unfoldable pub align_up : ℕ → ℕ → ℕ
align_up p align = let r = p % align in if r == 0 then p else (p + (align - r)) % 2 ^ 64

unfoldable pub alignment : ℕ → ℕ
alignment align = if align == 0 then word else align

-- the block at `p` taken, if it ends within the stack
unfoldable pub take_block : DataStack → ℕ → ℕ → ℕ × DataStack
take_block ds p size = if ltb ds.limit ((p + size) % 2 ^ 64) then (0, ds) else (
  p,
  record ds {
    top = (p + size) % 2 ^ 64;
    is_growing = false;
    grow_head = if ds.is_growing then 0 else ds.grow_head;
  },
)

unfoldable pub alloc : DataStack → ℕ → ℕ → ℕ × DataStack
alloc ds size align =
    if size == 0 then (0, ds) else take_block ds (align_up ds.top (alignment align)) size

-- the payload written behind the struct at `s`, with its nul; nothing is moved if it is in place
unfoldable pub write_payload : Memory → ℕ → ℕ → ℕ → Memory
write_payload mem s data_ptr len =
    let payload = s + string_size in
    let moved =
      if not (data_ptr == 0) && (ltb 0 len && not (payload == data_ptr))
      then memmove mem payload data_ptr len
      else mem in
    put_byte moved (payload + len) 0

unfoldable pub string_at : ℕ → ℕ → StackString
string_at s len = record { addr = s; data_ptr = s + string_size; len = len; ref = negsuc 0 }

-- `strlen` is libc's, on a memory and an address.
module _ (strlen : Memory → ℕ → ℕ) where
  unfoldable pub text_len : Memory → ℕ → ℤ → ℕ
  text_len mem data_ptr (pos n) = n
  text_len mem data_ptr (negsuc n) = if data_ptr == 0 then 0 else strlen mem data_ptr

  unfoldable pub string : DataStack → ℕ → ℤ → Option StackString × DataStack
  string ds data_ptr len =
      let n = text_len ds.mem data_ptr len in
      let (s, ds') = alloc ds (string_size + n + 1) word in
      if s == 0
      then (none, ds')
      else (some (string_at s n), record ds' { mem = write_payload ds'.mem s data_ptr n })

unfoldable pub slice_begin : DataStack → ℕ → Slice → ℕ → DataStack × Slice
slice_begin ds at s elemsize =
    if elemsize == 0
    then (ds, s)
    else let p = align_up ds.top word in
      (
        record ds { top = p; is_growing = true; grow_head = at },
        record {
          data_ptr = p;
          len = 0;
          cap = pos ((ds.limit - p) / elemsize);
          elemsize = elemsize;
        },
      )

-- `at` is the address of the slice; the result is where the element was put.
unfoldable pub slice_push : DataStack → ℕ → Slice → ℕ → ℕ × DataStack × Slice
slice_push ds at s elem =
    if not ds.is_growing || not (ds.grow_head == at)
    then (0, ds, s)
    else if ltb ds.limit (ds.top + s.elemsize)
    then (0, ds, s)
    else (
      ds.top,
      record ds { mem = memmove ds.mem ds.top elem s.elemsize; top = ds.top + s.elemsize },
      record s { len = s.len + 1 },
    )

-- -n
unfoldable pub minus : ℕ → ℤ
minus zero = pos 0
minus (suc n) = negsuc n

unfoldable pub slice_end : DataStack → ℕ → Slice → DataStack × Slice
slice_end ds at s =
    if ds.is_growing && ds.grow_head == at
    then (record ds { is_growing = false; grow_head = 0 }, record s { cap = minus s.len })
    else (ds, s)

-- o9_slice_free: the pointer that it hands to free, if it does
unfoldable pub slice_free : Slice → Option ℕ
slice_free s = elim s.cap [ negsuc n ↦ none | pos n ↦ some s.data_ptr ]

-- `O9DataFrame`, without its pointer to the stack, which is passed beside it
pub record DataFrame : Type 0 where
  pub mark : ℕ
  pub sealed : Bool

unfoldable pub frame_enter : DataStack → DataFrame
frame_enter ds = record { mark = ds.top; sealed = false }

unfoldable pub frame_alloc : DataStack → DataFrame → ℕ → ℕ → ℕ × DataStack
frame_alloc ds f size align = alloc ds size align

module _ (strlen : Memory → ℕ → ℕ) where
  unfoldable pub seal_string :
      DataStack → DataFrame → ℕ → ℤ → Option StackString × DataStack × DataFrame
  seal_string ds f data_ptr len =
      let n = text_len strlen ds.mem data_ptr len in
      let need = string_size + n + 1 in
      if ltb ds.limit (f.mark + need) then (none, ds, f) else (
        some (string_at f.mark n),
        record ds { mem = write_payload ds.mem f.mark data_ptr n; top = f.mark + need },
        record f { sealed = true },
      )

-- The text of `len` bytes at `src`, copied with a nul; 0 is the constant empty string, for want of room.
unfoldable pub frame_scratch_str : DataStack → DataFrame → ℕ → ℕ → ℕ × DataStack
frame_scratch_str ds f src len =
    let (p, ds') = frame_alloc ds f (len + 1) 1 in
    let copied = if ltb 0 len then memmove ds'.mem p src len else ds'.mem in
    if p == 0 then (0, ds') else (p, record ds' { mem = put_byte copied (p + len) 0 })

unfoldable pub frame_exit : DataStack → DataFrame → DataStack
frame_exit ds f = if f.sealed then ds else reset ds f.mark

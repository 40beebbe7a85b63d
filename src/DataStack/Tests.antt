-- ===== src/DataStack/Tests.antt =====
-- A stack of 1024 bytes at address 4096.
use objective_9c.Prelude.{
  ℕ, ◌-◌, ◌^◌, ◌≡◌, refl, ◌⊎◌, List, [], ◌∷◌, some, none, true, false, ◌==◌, if◌then◌else◌, arith,
}
use objective_9c.Prelude.Int.{pos}
use objective_9c.DataStack.{
  DataStack, Slice, Memory, alloc, take_block, align_up, alignment, reset, frame_enter, frame_alloc,
  DataFrame, slice_free, slice_end, create, capacity_of,
}
use objective_9c.DataStack.Bounds.{IsValid, Given, alloc_lem}
use objective_9c.DataStack.Blocks.{Reach, IsPacked, Reach-IsPacked, kept, Step}
use objective_9c.DataStack.Frame.{Allocs}
use objective_9c.DataStack.Build.{Grows, slice_free-end}

abbrev zeros : Memory
zeros a = 0

abbrev stack : DataStack
stack = record {
  base = 4096;
  top = 4096;
  limit = 5120;
  is_growing = false;
  grow_head = 0;
  mem = zeros;
}

abbrev used : DataStack
used = record stack { top = 4108 }

created : create zeros 100 true 4096 ≡ some stack
unfolding create capacity_of
created = refl

-- a size that makes the end of the block wrap to 0 is given out
wraps : (alloc stack (2 ^ 64 - 4096) 1).0 ≡ 4096
unfolding alloc take_block align_up alignment
wraps = refl

stack-IsValid : IsValid stack
stack-IsValid = record {
  base_pos = omega arith;
  low = omega arith;
  high = omega arith;
  space = omega arith;
}

taken : alloc stack 12 8 ≡ (4096, used)
unfolding alloc take_block align_up alignment
taken = refl

alloc_lem_example :
    (alloc stack 12 8 ≡ (0, stack))
    ⊎ ((p : ℕ) × (ds' : DataStack) × (alloc stack 12 8 ≡ (p, ds')) × Given stack 12 8 p ds')
alloc_lem_example =
    alloc_lem stack 12 8 stack-IsValid (omega arith) (unfold alignment in omega arith)

two_steps : Reach stack (reset used 4100) (kept 4100 ((4096, 12) ∷ []))
two_steps =
    Reach.step
      (Reach.step Reach.begin (
        Step.gives 12 8 4096 used (omega arith) (unfold alignment in omega arith) taken
          (omega arith)))
      (Step.returns 4100 (omega arith) (omega arith) (omega arith))

Reach-IsPacked_example : IsPacked stack (reset used 4100) (kept 4100 ((4096, 12) ∷ []))
Reach-IsPacked_example = Reach-IsPacked stack-IsValid two_steps

one_alloc : Allocs (frame_enter stack) stack used
unfolding frame_alloc
one_alloc =
    Allocs.another 12 8 4096 Allocs.nothing (omega arith) (unfold alignment in omega arith) taken

abbrev no_strlen : Memory → ℕ → ℕ
no_strlen mem p = 0

abbrev frame : DataFrame
frame = record { mark = 4096; sealed = false }

abbrev growing : DataStack
growing = record stack { is_growing = true; grow_head = 64 }

abbrev empty_slice : Slice
empty_slice = record { data_ptr = 4096; len = 0; cap = pos 128; elemsize = 8 }

growing-Grows : Grows growing 64 empty_slice
growing-Grows = record { growing = refl; head_eq = refl; top_eq = omega arith }

abbrev elements : List ℕ
elements = 8 ∷ 16 ∷ []

slice_free-end_example :
    slice_free (slice_end growing 64 empty_slice).1
    ≡ (if empty_slice.len == 0 then some empty_slice.data_ptr else none)
slice_free-end_example = slice_free-end growing 64 empty_slice growing-Grows

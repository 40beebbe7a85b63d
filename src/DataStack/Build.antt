-- ===== src/DataStack/Build.antt =====
-- Slices that grow on the top of a data stack.
use objective_9c.Prelude.{
  ℕ, zero, suc, ◌+◌, ◌*◌, ◌≤◌, ◌≡◌, refl, ap, ◌∙◌, List, [], ◌∷◌, some, none, true, false, ◌&&◌,
  ◌||◌, not, ◌==◌, ltb, if◌then◌else◌, arith, length, suc-mul, add-mul,
}
use objective_9c.Prelude.Int.{pos, negsuc}
use objective_9c.DataStack.{DataStack, Slice, slice_push, slice_end, slice_free, minus}

-- `at` is the slice that grows, and the top is the end of its elements
pub record Grows (ds : DataStack) (at : ℕ) (s : Slice) : Type 0 where
  pub growing : ds.is_growing ≡ true
  pub head_eq : ds.grow_head ≡ at
  pub top_eq : ds.top ≡ s.data_ptr + s.len * s.elemsize

-- the elements at these addresses, pushed one after the other
abbrev pub push_all : DataStack → ℕ → Slice → List ℕ → DataStack × Slice
push_all ds at s [] = (ds, s)
push_all ds at s (e ∷ es) = let (_, ds', s') = slice_push ds at s e in push_all ds' at s' es

-- one push that has room
abbrev Pushed : DataStack → ℕ → Slice → DataStack → Slice → Type 0
Pushed ds at s ds' s' =
    Grows ds' at s'
    × (s'.len ≡ s.len + 1)
    × (s'.data_ptr ≡ s.data_ptr)
    × (s'.elemsize ≡ s.elemsize)
    × (ds'.limit ≡ ds.limit)
    × (ds'.top ≡ ds.top + s.elemsize)

push_lem :
    (ds : DataStack) (at : ℕ) (s : Slice) (e : ℕ)
    → Grows ds at s
    → ds.top + s.elemsize ≤ ds.limit
    → Pushed ds at s (slice_push ds at s e).1 (slice_push ds at s e).2
unfolding slice_push
push_lem ds at s e g room =
    let mine : (not ds.is_growing || not (ds.grow_head == at)) ≡ false = ground arith in
    let fits : ltb ds.limit (ds.top + s.elemsize) ≡ false = ground arith in
    let one : (s.len + 1) * s.elemsize ≡ s.len * s.elemsize + s.elemsize =
      omega (arith, add-mul s.len 1 s.elemsize) in
    let next : ds.top + s.elemsize ≡ s.data_ptr + (s.len + 1) * s.elemsize = omega (arith, one) in
    rw (mine, fits)
      (
        record { growing = g.growing; head_eq = g.head_eq; top_eq = next },
        refl,
        refl,
        refl,
        refl,
        refl,
      )

-- After `o9_datastack_slice_push` of a list of elements for which the stack has room, onto the
-- slice that grows there, the slice has
-- as many elements more, still begins where it began, and the top is the end of its last element.
pub push_all_lem :
    (ds : DataStack) (at : ℕ) (s : Slice) (es : List ℕ)
    → Grows ds at s
    → ds.top + length es * s.elemsize ≤ ds.limit
    → ((push_all ds at s es).1.len ≡ s.len + length es)
      × ((push_all ds at s es).1.data_ptr ≡ s.data_ptr)
      × ((push_all ds at s es).0.top ≡ ds.top + length es * s.elemsize)
push_all_lem ds at s [] g room = (omega arith, refl, omega arith)
push_all_lem ds at s (e ∷ es) g room =
    let one : suc (length es) * s.elemsize ≡ length es * s.elemsize + s.elemsize =
      suc-mul (length es) s.elemsize in
    let (g', len', data', size', limit', top') = push_lem ds at s e g (omega (arith, one)) in
    let ds' = (slice_push ds at s e).1 in
    let s' = (slice_push ds at s e).2 in
    let same : length es * s'.elemsize ≡ length es * s.elemsize = ap (λ z. length es * z) size' in
    let (len'', data'', top'') = push_all_lem ds' at s' es g' (omega (arith, one, same)) in
    (omega (arith, len', len''), data'' ∙ data', omega (arith, one, same, top', top''))

freed :
    {A : Type 0} (len : ℕ) (p : A)
    → elim (minus len) [ negsuc n ↦ none | pos n ↦ some p ] ≡ (if len == 0 then some p else none)
unfolding minus
freed zero p = refl
freed (suc n) p = ground arith

-- When the building of a slice on the stack ends, `o9_slice_free` leaves it alone exactly if it has an
-- element: of an empty slice it frees the pointer into the stack.
pub slice_free-end :
    (ds : DataStack) (at : ℕ) (s : Slice)
    → Grows ds at s
    → slice_free (slice_end ds at s).1 ≡ (if s.len == 0 then some s.data_ptr else none)
unfolding slice_free slice_end minus
slice_free-end ds at s g =
    let mine : (ds.is_growing && ds.grow_head == at) ≡ true = ground arith in
    rw mine (freed s.len s.data_ptr)

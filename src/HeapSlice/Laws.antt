-- ===== src/HeapSlice/Laws.antt =====
-- What a slice holds after each of its operations.
use objective_9c.Prelude.{
  ℕ, zero, suc, ◌+◌, ◌*◌, ◌≤◌, ◌<◌, ◌≡◌, refl, ap, ◌∙◌, ◌≢◌, inl, inr, some, none, true, ◌==◌, leb,
  if◌then◌else◌, arith, Bool-cases,
}
use objective_9c.Prelude.Int.{ℤ, pos, negsuc}
use objective_9c.HeapSlice.{
  Slice, put, grown, clear, append, get, set_at, double, capacity_for, ensure, store, setgrow,
}

abbrev pub IsValid : {A : Type 0} → Slice A → Type 0
IsValid s = s.len ≤ s.cap

-- the loop has rounds enough
double_lem : (rounds idx cap : ℕ) → 0 < cap → idx < cap + rounds → idx < double rounds idx cap
unfolding double
double_lem zero idx cap h k = omega arith
double_lem (suc rounds) idx cap h k = elim (Bool-cases (leb cap idx)) [
  | inl more ↦ rw more (double_lem rounds idx (cap * 2) (omega arith) (omega arith))
  | inr done ↦ rw done (ground arith)
]

pub capacity_for_lem : (idx cap : ℕ) → idx < capacity_for idx cap
unfolding capacity_for
capacity_for_lem idx cap = elim (Bool-cases (cap == 0)) [
  | inl none_yet ↦ rw none_yet (double_lem (idx + 1) idx 8 (omega arith) (omega arith))
  | inr some_cap ↦ rw some_cap (double_lem (idx + 1) idx cap (ground arith) (omega arith))
]

module _ {A : Type 0} (z : A) (junk : ℕ → A) where
  -- After a successful `o9_slice_append` the slice is one element longer, holds the new element at the
  -- end and what it held below, and its length does not exceed its capacity.
  pub append_lem :
      (s : Slice A) (v : A)
      → IsValid s
      → (s' : Slice A) × (append junk true s v ≡ some s')
        × IsValid s'
        × (s'.len ≡ s.len + 1)
        × (s'.cells s.len ≡ v)
        × ((j : ℕ) → j < s.len → s'.cells j ≡ s.cells j)
  unfolding append put grown
  append_lem s v h = elim (Bool-cases (leb s.cap s.len)) [
    | inl full ↦ rw full (_, refl, ground arith, refl, ground arith, (λ j k. ground arith))
    | inr room ↦ rw room (_, refl, ground arith, refl, ground arith, (λ j k. ground arith))
  ]

  store_lem :
      (s : Slice A) (idx : ℕ) (v : A)
      → IsValid s
      → idx < s.cap
      → IsValid (store z s idx v)
        × ((store z s idx v).len ≡ (if leb s.len idx then idx + 1 else s.len))
        × ((store z s idx v).cells idx ≡ v)
        × ((j : ℕ) → s.len ≤ j → j < idx → (store z s idx v).cells j ≡ z)
        × ((j : ℕ) → j < s.len → j ≢ idx → (store z s idx v).cells j ≡ s.cells j)
  unfolding store put clear
  store_lem s idx v h room = elim (Bool-cases (leb s.len idx)) [
    | inl beyond ↦
        rw beyond
          (omega arith, refl, ground arith, (λ j k l. ground arith), (λ j k ne. ground arith))
    | inr within ↦
        rw within
          (h, refl, ground arith, (λ j k l. absurd (ground arith)), (λ j k ne. ground arith))
  ]

  ensure_lem :
      (s : Slice A) (idx : ℕ)
      → IsValid s
      → (s' : Slice A) × (ensure z junk true s idx ≡ some s')
        × (s'.len ≡ s.len)
        × IsValid s'
        × (idx < s'.cap)
        × ((j : ℕ) → j < s.len → s'.cells j ≡ s.cells j)
  unfolding ensure clear grown
  ensure_lem s idx h =
      let big = capacity_for_lem idx s.cap in
      elim (Bool-cases (leb s.cap idx)) [
        | inl small ↦ rw small (_, refl, refl, ground arith, big, (λ j k. ground arith))
        | inr large ↦ rw large (s, refl, refl, h, ground arith, (λ j k. refl))
      ]

  -- After `o9_slice_setgrow` at an index, with memory, the slice reaches over that index, holds the
  -- element there, zero in the gap behind its old end, and what it held everywhere else.
  pub setgrow_lem :
      (s : Slice A) (idx : ℕ) (v : A)
      → IsValid s
      → IsValid (setgrow z junk true s (pos idx) v)
        × ((setgrow z junk true s (pos idx) v).len ≡ (if leb s.len idx then idx + 1 else s.len))
        × ((setgrow z junk true s (pos idx) v).cells idx ≡ v)
        × ((j : ℕ) → s.len ≤ j → j < idx → (setgrow z junk true s (pos idx) v).cells j ≡ z)
        × ((j : ℕ) → j < s.len → j ≢ idx → (setgrow z junk true s (pos idx) v).cells j ≡ s.cells j)
  unfolding setgrow
  setgrow_lem s idx v h =
      let (s', e, len', h', room, below) = ensure_lem s idx h in
      let (valid, len'', here, gap, other) = store_lem s' idx v h' room in
      let eq : setgrow z junk true s (pos idx) v ≡ store z s' idx v = rw (setgrow, e) refl in
      rw eq (
        valid,
        len'' ∙ ap (λ n. if leb n idx then idx + 1 else n) len',
        here,
        (λ j k l. gap j (omega arith) l),
        (λ j k ne. other j (omega arith) ne ∙ below j k),
      )

  -- `o9_slice_set` at an index of the slice changes what `o9_slice_get` gives there and nowhere else; out
  -- of range it changes nothing.
  pub get-set_at :
      (s : Slice A) (i j : ℤ) (v : A)
      → (i ≢ j → get (set_at s i v) j ≡ get s j)
        × (get (set_at s i v) i ≡ elim (get s i) [ none ↦ none | some old ↦ some v ])
  unfolding get set_at put
  get-set_at s (negsuc m) j v = ((λ ne. refl), refl)
  get-set_at s (pos m) (negsuc n) v = ((λ ne. refl), ground arith)
  get-set_at s (pos m) (pos n) v =
      ((λ ne. let other : m ≢ n = (λ e. ne (ap pos e)) in ground arith), ground arith)

-- ===== src/DataStack/Frame.antt =====
-- Frames on a data stack: what leaving one gives back, and the string that sealing one leaves.
use objective_9c.Prelude.{
  ℕ, ◌+◌, ◌-◌, ◌^◌, ◌≤◌, ◌<◌, ◌≡◌, refl, ◌∙◌, sym, ◌≢◌, inl, inr, some, true, false, ◌&&◌, ◌||◌,
  not, ◌==◌, ltb, leb, if◌then◌else◌, arith, Bool-cases, subst,
}
use objective_9c.Prelude.Int.{ℤ}
use objective_9c.DataStack.{
  DataStack, DataFrame, Memory, alignment, frame_enter, frame_alloc, frame_exit, reset, memmove,
  put_byte, write_payload, text_len, seal_string, string_at, string_size,
}
use objective_9c.DataStack.Bounds.{IsValid, Given, alloc_lem, Given-IsValid}

-- allocations in a frame, that succeed or not
pub data Allocs (f : DataFrame) (ds : DataStack) : DataStack → Type 0 where
  nothing : Allocs f ds ds
  another :
      {ds' ds'' : DataStack} (size align p : ℕ)
      → Allocs f ds ds'
      → 0 < size
      → ds'.top + alignment align + size < 2 ^ 64
      → frame_alloc ds' f size align ≡ (p, ds'')
      → Allocs f ds ds''

record Kept (ds ds' : DataStack) : Type 0 where
  valid : IsValid ds'
  base_eq : ds'.base ≡ ds.base
  limit_eq : ds'.limit ≡ ds.limit
  above : ds.top ≤ ds'.top
  mem_eq : ds'.mem ≡ ds.mem

Kept-Given :
    {ds ds' dn : DataStack} {size align p : ℕ}
    → Kept ds ds'
    → Given ds' size align p dn
    → Kept ds dn
Kept-Given {ds} {ds'} {dn} k g = record {
  valid = Given-IsValid k.valid g;
  base_eq = Given.base_eq g ∙ k.base_eq;
  limit_eq = Given.limit_eq g ∙ k.limit_eq;
  above = omega arith;
  mem_eq = Given.mem_eq g ∙ k.mem_eq;
}

Allocs-Kept : {f : DataFrame} {ds ds' : DataStack} → IsValid ds → Allocs f ds ds' → Kept ds ds'
unfolding frame_alloc
Allocs-Kept v nothing = record {
  valid = v;
  base_eq = refl;
  limit_eq = refl;
  above = omega arith;
  mem_eq = refl;
}
Allocs-Kept {f} {ds} {ds' = dn} v (another {ds'} size align p a some_bytes room e) =
    let k = Allocs-Kept v a in
    elim (alloc_lem ds' size align k.valid some_bytes room) [
      | inl full ↦ subst (λ z. Kept ds z.1) (sym full ∙ e) k
      | inr (q, dq, h, g) ↦ subst (λ z. Kept ds z.1) (sym h ∙ e) (Kept-Given k g)
    ]

-- On a valid stack, leaving a frame in which nothing was sealed gives back every block that was allocated in it: the
-- top is where it was, and so is what the memory holds.
pub exit_restores :
    {ds ds' : DataStack}
    → IsValid ds
    → Allocs (frame_enter ds) ds ds'
    → ((frame_exit ds' (frame_enter ds)).top ≡ ds.top)
      × ((frame_exit ds' (frame_enter ds)).mem ≡ ds.mem)
unfolding frame_exit frame_enter reset
exit_restores {ds} {ds'} v a =
    let k = Allocs-Kept v a in
    let inside : (ds.top == 0 || (ltb ds.top ds'.base || ltb ds'.limit ds.top)) ≡ false =
      (let b = k.base_eq in ground arith) in
    rw inside (refl, k.mem_eq)

memmove-inside :
    (mem : Memory) (dst src n i : ℕ) → i < n → memmove mem dst src n (dst + i) ≡ mem (src + i)
unfolding memmove
memmove-inside mem dst src n i h =
    let there : (leb dst (dst + i) && ltb (dst + i) (dst + n)) ≡ true = ground arith in
    let e : (dst + i) - dst ≡ i = omega arith in rw (there, e) refl

memmove-below : (mem : Memory) (dst src n a : ℕ) → a < dst → memmove mem dst src n a ≡ mem a
unfolding memmove
memmove-below mem dst src n a h =
    let out : (leb dst a && ltb a (dst + n)) ≡ false = ground arith in rw out refl

abbrev moved : Memory → ℕ → ℕ → ℕ → Memory
moved mem payload src n =
    if not (src == 0) && (ltb 0 n && not (payload == src)) then memmove mem payload src n else mem

moved_inside :
    (mem : Memory) (payload src n i : ℕ)
    → src ≢ 0
    → i < n
    → moved mem payload src n (payload + i) ≡ mem (src + i)
moved_inside mem payload src n i ne h =
    elim (Bool-cases (not (src == 0) && (ltb 0 n && not (payload == src)))) [
      | inl far ↦ rw far (memmove-inside mem payload src n i h)
      | inr here ↦ let same : payload ≡ src = ground arith in rw (here, same) refl
    ]

moved_below : (mem : Memory) (payload src n a : ℕ) → a < payload → moved mem payload src n a ≡ mem a
moved_below mem payload src n a h =
    elim (Bool-cases (not (src == 0) && (ltb 0 n && not (payload == src)))) [
      | inl far ↦ rw far (memmove-below mem payload src n a h)
      | inr here ↦ rw here refl
    ]

-- what a payload of `n` bytes from `src` behind the struct at `s` leaves in memory
pub write_payload_lem :
    (mem : Memory) (s src n : ℕ)
    → src ≢ 0
    → ((i : ℕ) → i < n → write_payload mem s src n (s + string_size + i) ≡ mem (src + i))
      × (write_payload mem s src n (s + string_size + n) ≡ 0)
      × ((a : ℕ) → a < s → write_payload mem s src n a ≡ mem a)
unfolding write_payload put_byte
write_payload_lem mem s src n h = (
  (λ i k.
      let other : (s + string_size + i == s + string_size + n) ≡ false = ground arith in
      rw other (moved_inside mem (s + string_size) src n i h k)),
  (let same : (s + string_size + n == s + string_size + n) ≡ true = ground arith in rw same refl),
  (λ a k.
      let other : (a == s + string_size + n) ≡ false = ground arith in
      rw other (moved_below mem (s + string_size) src n a (omega arith))),
)

-- If the string fits behind the mark of the frame, `o9_frame_seal_string` leaves a string of the
-- bytes that stood at `data`, not nil, wherever in memory they stood, closed by a nul, directly behind the mark;
-- the memory below the mark stays, and everything else of the frame is given back.
pub seal_string_lem :
    (strlen : Memory → ℕ → ℕ) (ds : DataStack) (f : DataFrame) (src : ℕ) (len : ℤ)
    → src ≢ 0
    → f.mark + (string_size + text_len strlen ds.mem src len + 1) ≤ ds.limit
    → (ds' : DataStack) × (seal_string strlen ds f src len ≡ (
      some (string_at f.mark (text_len strlen ds.mem src len)),
      ds',
      record f { sealed = true },
    ))
      × (ds'.top ≡ f.mark + (string_size + text_len strlen ds.mem src len + 1))
      × ((i : ℕ)
          → i < text_len strlen ds.mem src len
          → ds'.mem (f.mark + string_size + i) ≡ ds.mem (src + i))
      × (ds'.mem (f.mark + string_size + text_len strlen ds.mem src len) ≡ 0)
      × ((a : ℕ) → a < f.mark → ds'.mem a ≡ ds.mem a)
unfolding seal_string
seal_string_lem strlen ds f src len h room =
    let n = text_len strlen ds.mem src len in
    let fits : ltb ds.limit (f.mark + (string_size + n + 1)) ≡ false = ground arith in
    let (bytes, nul, below) = write_payload_lem ds.mem f.mark src n h in
    rw fits (_, refl, refl, bytes, nul, below)

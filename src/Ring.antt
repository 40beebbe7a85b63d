-- ===== src/Ring.antt =====
-- The submission and completion rings of o9_runtime.c (o9_tring_submit, o9_tring_consume,
-- o9_tring_len, o9_rring_complete, o9_rring_poll) and their structs in o9.h.
-- `O9TRing` and `O9RRing` differ in the type of an element only, so one generic ring models both.
-- Each C function holds the ring's spinlock from its first to its last statement: a call is one
-- atomic step. `head` and `tail` are u32int and wrap; `& O9_RING_MASK` is written as `% 64`.
pub mod Queue
pub mod Refine
pub mod Completions
pub mod Tests
use objective_9c.Prelude.{
  ℕ, ◌+◌, ◌-◌, ◌%◌, ◌^◌, List, Option, some, none, Bool, true, false, ltb, ◌==◌, if◌then◌else◌, set,
  get_elem?, replicate,
}

-- O9_RING_SIZE
abbrev pub ring_size : ℕ
ring_size = 64

module _ {ℓ} (A : Type ℓ) where
  pub record Ring : Type ℓ where
    pub head : ℕ
    pub tail : ℕ
    pub slots : List A

module _ {ℓ} {A : Type ℓ} where
  -- (u32int)(ring->head - ring->tail)
  abbrev pub used : Ring A → ℕ
  used r = (r.head + 2 ^ 32 - r.tail) % 2 ^ 32

  -- `true` is the return value 0, `false` is -1.
  unfoldable pub submit : Ring A → A → Bool × Ring A
  submit r x =
      if ltb (used r) ring_size
      then (
        true,
        record r { slots = set r.slots (r.head % ring_size) x; head = (r.head + 1) % 2 ^ 32 },
      )
      else (false, r)

  -- The Boolean is the return value; the option is what `*out` receives.
  unfoldable pub consume : Ring A → Bool × Option A × Ring A
  consume r =
      if r.tail == r.head
      then (false, none, r)
      else (true, get_elem? r.slots (r.tail % ring_size), record r { tail = (r.tail + 1) % 2 ^ 32 })

  -- o9_rring_complete and o9_rring_poll, on the ring of the completions
  unfoldable pub complete : Ring A → A → Bool × Ring A
  complete r x =
      if ltb (used r) ring_size
      then (
        true,
        record r { slots = set r.slots (r.head % ring_size) x; head = (r.head + 1) % 2 ^ 32 },
      )
      else (false, r)

  unfoldable pub poll : Ring A → Bool × Option A × Ring A
  poll r =
      if r.tail == r.head
      then (false, none, r)
      else (true, get_elem? r.slots (r.tail % ring_size), record r { tail = (r.tail + 1) % 2 ^ 32 })

  unfoldable pub ring_len : Ring A → ℕ
  ring_len r = used r

  -- a ring in zeroed memory (`mallocz`), `blank` being the element of zero bytes
  unfoldable pub fresh : A → Ring A
  fresh blank = record { head = 0; tail = 0; slots = replicate ring_size blank }

-- ===== src/Ring/Refine.antt =====
-- The rings refine the bounded queue, also where the 32-bit counters wrap.
use objective_9c.Prelude.{
  ℕ, zero, suc, ◌+◌, ◌-◌, ◌%◌, ◌^◌, ◌≤◌, ◌<◌, ◌≡◌, refl, ◌≢◌, ap, ap₂, List, [], ◌∷◌, ◌++◌, arith,
  length, get_or, get_elem?, set, length-set, Option, some, none, Bool, true, Bool-cases, ltb,
  ltb→lt, inl, inr, ◌⊎◌, ◌∙◌, false,
}
use objective_9c.Ring.{Ring, ring_size, used, submit, consume, ring_len, fresh}
use objective_9c.Ring.Queue.{Op, put, get, enqueue, dequeue, answers}

module _ {ℓ} {A : Type ℓ} where
  get_or-set_self : (xs : List A) (i : ℕ) (v d : A) → i < length xs → get_or (set xs i v) i d ≡ v
  get_or-set_self [] i v d h = absurd (omega arith)
  get_or-set_self (x ∷ xs) zero v d h = refl
  get_or-set_self (x ∷ xs) (suc i) v d h = get_or-set_self xs i v d (omega arith)

  get_or-set_ne :
      (xs : List A) (i j : ℕ) (v d : A) → i ≢ j → get_or (set xs i v) j d ≡ get_or xs j d
  get_or-set_ne [] i j v d h = refl
  get_or-set_ne (x ∷ xs) zero zero v d h = absurd (h refl)
  get_or-set_ne (x ∷ xs) zero (suc j) v d h = refl
  get_or-set_ne (x ∷ xs) (suc i) zero v d h = refl
  get_or-set_ne (x ∷ xs) (suc i) (suc j) v d h = get_or-set_ne xs i j v d (λ e. h (ap suc e))

  get_elem?-eq-some :
      (xs : List A) (i : ℕ) (d : A) → i < length xs → get_elem? xs i ≡ some (get_or xs i d)
  get_elem?-eq-some [] i d h = absurd (omega arith)
  get_elem?-eq-some (x ∷ xs) zero d h = refl
  get_elem?-eq-some (x ∷ xs) (suc i) d h = get_elem?-eq-some xs i d (omega arith)

  pub record IsValid (r : Ring A) : Type 0 where
    pub head_word : r.head < 2 ^ 32
    pub tail_word : r.tail < 2 ^ 32
    pub storage : length r.slots ≡ ring_size
    pub fits : used r ≤ ring_size

  pub submit-IsValid : {r : Ring A} (x : A) → IsValid r → IsValid (submit r x).1
  unfolding submit
  submit-IsValid {r} x v = ground (arith, length-set r.slots (r.head % ring_size) x)

  pub consume-IsValid : {r : Ring A} → IsValid r → IsValid (consume r).2
  unfolding consume
  consume-IsValid v = ground arith

  pub fresh-IsValid : (blank : A) → IsValid (fresh blank)
  unfolding fresh
  fresh-IsValid blank = omega arith

  -- the answers of a ring to a sequence of calls
  unfoldable pub run : Ring A → List (Op A) → List (Bool × Option A)
  run r [] = []
  run r (put x ∷ ops) = ((submit r x).0, none) ∷ run (submit r x).1 ops
  run r (get ∷ ops) = ((consume r).0, (consume r).1) ∷ run (consume r).2 ops

module _ {ℓ} {A : Type ℓ} (blank : A) where
  -- the `n` elements from counter value `t` on
  abbrev pub window : List A → ℕ → ℕ → List A
  window xs t zero = []
  window xs t (suc n) = get_or xs (t % ring_size) blank ∷ window xs ((t + 1) % 2 ^ 32) n

  -- the queue that a ring stands for
  abbrev pub contents : Ring A → List A
  contents r = window r.slots r.tail (used r)

  length-window : (xs : List A) (t n : ℕ) → length (window xs t n) ≡ n
  length-window xs t zero = refl
  length-window xs t (suc n) = ap suc (length-window xs ((t + 1) % 2 ^ 32) n)

  window-set :
      (xs : List A) (x : A) (t n i : ℕ)
      → t < 2 ^ 32
      → length xs ≡ ring_size
      → n < ring_size
      → i ≡ (t + n) % 2 ^ 32
      → window (set xs (i % ring_size) x) t (suc n) ≡ window xs t n ++ x ∷ []
  window-set xs x t zero i ht hs hn e =
      let same : t % ring_size ≡ i % ring_size = omega arith in
      rw same (ap (λ y. y ∷ []) (get_or-set_self xs (i % ring_size) x blank (omega arith)))
  window-set xs x t (suc n) i ht hs hn e =
      ap₂ ◌∷◌ (get_or-set_ne xs (i % ring_size) (t % ring_size) x blank (omega arith))
        (window-set xs x ((t + 1) % 2 ^ 32) n i (omega arith) hs (omega arith) (omega arith))

  window_pos :
      (xs : List A) (t n : ℕ)
      → n ≢ 0
      → window xs t n ≡ get_or xs (t % ring_size) blank ∷ window xs ((t + 1) % 2 ^ 32) (n - 1)
  window_pos xs t zero h = absurd (h refl)
  window_pos xs t (suc n) h = ap (λ k. window xs t (suc k)) (omega arith)

  -- `o9_tring_submit` answers as the queue of 64 places does, and leaves the ring holding the new
  -- queue: an element is appended if there is room, and nothing changes otherwise.
  pub submit_refines :
      {r : Ring A} (x : A)
      → IsValid r
      → ((submit r x).0, contents (submit r x).1) ≡ enqueue ring_size (contents r) x
  unfolding submit enqueue
  submit_refines {r} x v = elim (Bool-cases (ltb (used r) ring_size)) [
    | inl room ↦
        let lt : used r < ring_size = ltb→lt _ _ room in
        let more : ((r.head + 1) % 2 ^ 32 + 2 ^ 32 - r.tail) % 2 ^ 32 ≡ suc (used r) =
          omega arith in
        rw (length-window, room, more)
          (ap (λ q. (true, q))
            (window-set r.slots x r.tail (used r) r.head (omega arith) (omega arith) lt
              (omega arith)))
    | inr full ↦ rw (length-window, full)
  ]

  -- `o9_tring_consume` answers as the queue does: it hands out the oldest element and leaves the
  -- ring holding the rest, or says that the ring is empty and changes nothing.
  pub consume_refines :
      {r : Ring A}
      → IsValid r
      → ((consume r).0, (consume r).1, contents (consume r).2) ≡ dequeue (contents r)
  unfolding consume dequeue
  consume_refines {r} v = ground (
    arith,
    window_pos r.slots r.tail (used r),
    get_elem?-eq-some r.slots (r.tail % ring_size) blank,
  )

  -- `o9_tring_len` is the number of elements in the queue.
  pub ring_len_lem : (r : Ring A) → ring_len r ≡ length (contents r)
  unfolding ring_len
  ring_len_lem r = rw length-window

  -- No sequence of submissions and consumptions tells a valid ring from the queue of its contents:
  -- it gives the same answers and the same elements in the same order.
  pub run_refines :
      (ops : List (Op A)) {r : Ring A} → IsValid r → run r ops ≡ answers ring_size (contents r) ops
  unfolding run answers
  run_refines [] v = refl
  run_refines (put x ∷ ops) {r} v = rw (run_refines ops (submit-IsValid x v), ← submit_refines x v)
  run_refines (get ∷ ops) {r} v = rw (run_refines ops (consume-IsValid v), ← consume_refines v)

  -- the two outcomes of a submission
  pub submit-cases :
      (r : Ring A) (x : A)
      → IsValid r
      → (((submit r x).0 ≡ true) × (contents (submit r x).1 ≡ contents r ++ x ∷ []))
        ⊎ (((submit r x).0 ≡ false) × ((submit r x).1 ≡ r))
  unfolding submit
  submit-cases r x v = elim (Bool-cases (ltb (used r) ring_size)) [
    | inl room ↦
        let lt : used r < ring_size = ltb→lt _ _ room in
        let more : ((r.head + 1) % 2 ^ 32 + 2 ^ 32 - r.tail) % 2 ^ 32 ≡ suc (used r) =
          omega arith in
        inl (
          rw (room, more)
            (
              refl,
              window-set r.slots x r.tail (used r) r.head (omega arith) (omega arith) lt
                  (omega arith),
            ))
    | inr full ↦ inr (rw full (refl, refl))
  ]

  -- taking an element out leaves the rest of the queue
  pub consume_rest :
      (r : Ring A) (x : A) (q : List A)
      → IsValid r
      → contents r ≡ x ∷ q
      → ((consume r).0 ≡ true) × ((consume r).1 ≡ some x) × (contents (consume r).2 ≡ q)
  unfolding dequeue
  consume_rest r x q v e =
      let step : ((consume r).0, (consume r).1, contents (consume r).2) ≡ (true, some x, q) =
        consume_refines v ∙ ap dequeue e in
      (ap (λ t. t.0) step, ap (λ t. t.1) step, ap (λ t. t.2) step)

  pub consume_none : (r : Ring A) → IsValid r → contents r ≡ [] → (consume r).0 ≡ false
  unfolding dequeue
  consume_none r v e =
      let step : ((consume r).0, (consume r).1, contents (consume r).2) ≡ (false, none, []) =
        consume_refines v ∙ ap dequeue e in
      ap (λ t. t.0) step

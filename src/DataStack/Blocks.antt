-- ===== src/DataStack/Blocks.antt =====
-- The blocks in use on a data stack, over any sequence of allocations and resets.
use objective_9c.Prelude.{
  ℕ, ◌+◌, ◌^◌, ◌≤◌, ◌<◌, ◌≡◌, refl, ◌≢◌, inl, inr, List, [], ◌∷◌, false, leb, if◌then◌else◌, arith,
  Bool-cases, ◌==◌, ltb, ◌∙◌, ap, subst, sym, ◌||◌,
}
use objective_9c.DataStack.{DataStack, alloc, alignment, reset}
use objective_9c.DataStack.Bounds.{IsValid, Given, alloc_lem, Given-IsValid}

-- the start and the size of the blocks in use, the newest first
abbrev pub Live : Type 0
Live = List (ℕ × ℕ)

-- the blocks that end at or below a mark
abbrev pub kept : ℕ → Live → Live
kept m [] = []
kept m ((p, n) ∷ live) = if leb (p + n) m then (p, n) ∷ live else kept m live

-- No block overlaps another: each begins at or behind the end of the one before it, the first at
-- `low` or behind it, and the newest ends at `high` or before it.
abbrev pub Stacked : ℕ → ℕ → Live → Type 0
Stacked low high [] = low ≤ high
Stacked low high ((p, n) ∷ live) = (p + n ≤ high) × Stacked low p live

-- A program at work on one stack: an allocation that does not wrap, and a return to an address within what is in use.
pub data Step (ds : DataStack) (live : Live) : DataStack → Live → Type 0 where
  gives :
      (size align p : ℕ) (ds' : DataStack)
      → 0 < size
      → ds.top + alignment align + size < 2 ^ 64
      → alloc ds size align ≡ (p, ds')
      → p ≢ 0
      → Step ds live ds' ((p, size) ∷ live)
  returns : (m : ℕ) → ds.base ≤ m → m ≤ ds.top → 0 < m → Step ds live (reset ds m) (kept m live)

pub data Reach (start : DataStack) : DataStack → Live → Type 0 where
  begin : Reach start start []
  step :
      {ds ds' : DataStack} {live live' : Live}
      → Reach start ds live
      → Step ds live ds' live'
      → Reach start ds' live'

Stacked-le :
    (low high high' : ℕ) (live : Live)
    → high ≤ high'
    → Stacked low high live
    → Stacked low high' live
Stacked-le low high high' [] h s = omega arith
Stacked-le low high high' ((p, n) ∷ live) h (e, s) = (omega arith, s)

kept-Stacked :
    (low high m : ℕ) (live : Live) → low ≤ m → Stacked low high live → Stacked low m (kept m live)
kept-Stacked low high m [] h s = h
kept-Stacked low high m ((p, n) ∷ live) h (e, s) = elim (Bool-cases (leb (p + n) m)) [
  | inl below ↦ rw below (ground arith, s)
  | inr above ↦ rw above (kept-Stacked low p m live h s)
]

-- what holds of a stack and its blocks at every moment
pub record IsPacked (start ds : DataStack) (live : Live) : Type 0 where
  pub valid : IsValid ds
  pub same_base : ds.base ≡ start.base
  pub same_limit : ds.limit ≡ start.limit
  pub stacked : Stacked ds.base ds.top live

gives-IsPacked :
    {start ds ds' : DataStack} {live : Live} {size align p : ℕ}
    → IsPacked start ds live
    → Given ds size align p ds'
    → IsPacked start ds' ((p, size) ∷ live)
gives-IsPacked {start} {ds} {ds'} {live} {size} {align} {p} i g = record {
  valid = Given-IsValid i.valid g;
  same_base = Given.base_eq g ∙ i.same_base;
  same_limit = Given.limit_eq g ∙ i.same_limit;
  stacked = (
    omega arith,
    subst (λ b. Stacked b p live) (sym (Given.base_eq g))
        (Stacked-le ds.base ds.top p live (Given.behind g) i.stacked),
  );
}

step-IsPacked :
    {start ds ds' : DataStack} {live live' : Live}
    → IsPacked start ds live
    → Step ds live ds' live'
    → IsPacked start ds' live'
unfolding reset
step-IsPacked {start} {ds} {live = live} i (gives size align p ds' pos room e ne) =
    elim (alloc_lem ds size align i.valid pos room) [
      | inl full ↦ absurd (ne (ap (λ z. z.0) (sym e ∙ full)))
      | inr (q, dq, f, g) ↦
          subst (λ z. IsPacked start z.1 ((z.0, size) ∷ live)) (sym f ∙ e) (gives-IsPacked i g)
    ]
step-IsPacked {start} {ds} {live = live} i (returns m low high pos) =
    let inside : (m == 0 || (ltb m ds.base || ltb ds.limit m)) ≡ false = ground arith in
    rw inside (record {
      valid = record {
        base_pos = i.valid.base_pos;
        low = low;
        high = omega arith;
        space = i.valid.space;
      };
      same_base = i.same_base;
      same_limit = i.same_limit;
      stacked = kept-Stacked ds.base ds.top m live low i.stacked;
    })

-- From a valid stack with nothing in use, over any sequence of resets to an address that is in use and
-- of allocations that succeed and whose size, not 0, and alignment, added to the top, stay below
-- 2 ^ 64: the pointers stay in order, base and limit stay, and the blocks in
-- use lie within the stack and never overlap.
pub Reach-IsPacked :
    {start ds : DataStack} {live : Live}
    → IsValid start
    → Reach start ds live
    → IsPacked start ds live
Reach-IsPacked v begin = record { valid = v; same_base = refl; same_limit = refl; stacked = v.low }
Reach-IsPacked v (step r s) = step-IsPacked (Reach-IsPacked v r) s

-- ===== src/HeapSlice/Tests.antt =====
-- Slices of numbers.
use objective_9c.Prelude.{
  ℕ, ◌+◌, ◌≤◌, ◌<◌, ◌≡◌, refl, ◌≢◌, some, none, true, leb, if◌then◌else◌, arith,
}
use objective_9c.Prelude.Int.{pos}
use objective_9c.HeapSlice.{
  Slice, append, get, set_at, setgrow, ensure, store, double, capacity_for, put, clear, grown,
}
use objective_9c.HeapSlice.Laws.{IsValid, append_lem, setgrow_lem, get-set_at}

abbrev junk : ℕ → ℕ
junk i = 99

abbrev pair : Slice ℕ
pair = record { cells = λ i. i + 7; len = 2; cap = 8 }

grown_far : (setgrow 0 junk true pair (pos 20) 5).cap ≡ 32
unfolding setgrow ensure store double capacity_for put clear grown
grown_far = refl

append_lem_example :
    (s' : Slice ℕ) × (append junk true pair 4 ≡ some s')
    × IsValid s'
    × (s'.len ≡ pair.len + 1)
    × (s'.cells pair.len ≡ 4)
    × ((j : ℕ) → j < pair.len → s'.cells j ≡ pair.cells j)
append_lem_example = append_lem 0 junk pair 4 (omega arith)

setgrow_lem_example :
    IsValid (setgrow 0 junk true pair (pos 20) 5)
    × ((setgrow 0 junk true pair (pos 20) 5).len ≡ (if leb pair.len 20 then 20 + 1 else pair.len))
    × ((setgrow 0 junk true pair (pos 20) 5).cells 20 ≡ 5)
    × ((j : ℕ) → pair.len ≤ j → j < 20 → (setgrow 0 junk true pair (pos 20) 5).cells j ≡ 0)
    × ((j : ℕ)
        → j < pair.len
        → j ≢ 20
        → (setgrow 0 junk true pair (pos 20) 5).cells j ≡ pair.cells j)
setgrow_lem_example = setgrow_lem 0 junk pair 20 5 (omega arith)

get-set_at_example :
    (pos 0 ≢ pos 1 → get (set_at pair (pos 0) 5) (pos 1) ≡ get pair (pos 1))
    × (get (set_at pair (pos 0) 5) (pos 0)
        ≡ elim (get pair (pos 0)) [ none ↦ none | some old ↦ some 5 ])
get-set_at_example = get-set_at 0 junk pair (pos 0) (pos 1) 5

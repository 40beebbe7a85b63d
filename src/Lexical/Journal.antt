-- ===== src/Lexical/Journal.antt =====
-- The split of a journal's line at tabs: o9_journal_split of o9_runtime.c. `none` is nil.
use objective_9c.Prelude.{
  ℕ, zero, suc, ◌+◌, ◌-◌, ◌≤◌, ◌≡◌, refl, sym, ap, ap₂, ◌∙◌, List, [], ◌∷◌, ◌++◌, Option, some,
  none, Bool, true, false, ◌||◌, ◌==◌, if◌then◌else◌, arith, Bytes, length, replicate, append_assoc,
  append-nil, length-append, Bool-cases, inl, inr,
}

abbrev pub tab : ℕ
tab = 9

-- a text cut at its first tab
unfoldable pub cut_tab : Bytes → Option (Bytes × Bytes)
cut_tab [] = none
cut_tab (c ∷ s) =
    let rest = cut_tab s in
    if c == tab then some ([], s) else elim rest [ none ↦ none | some (x, y) ↦ some (c ∷ x, y) ]

-- the fields, of which `n` are to come, and the detail behind the last tab that is cut at
unfoldable pub fields_from : ℕ → Bytes → List Bytes × Bytes
fields_from zero s = ([], s)
fields_from (suc n) s = elim (cut_tab s) [
  | none ↦ (s ∷ [], [])
  | some (x, y) ↦ let (fs, detail) = fields_from n y in (x ∷ fs, detail)
]

-- the fields with empty ones behind them, the detail and the number of fields that were there
abbrev pub filled : ℕ → List Bytes × Bytes → List Bytes × Bytes × ℕ
filled n (fs, detail) = (fs ++ replicate (n - length fs) [], detail, length fs)

-- o9_journal_split: all fields, the detail and the number of fields that were there
unfoldable pub journal_split : Option Bytes → ℕ → List Bytes × Bytes × ℕ
journal_split none n = (replicate n [], [], 0)
journal_split (some s) zero = ([], [], 0)
journal_split (some s) (suc n) = filled (suc n) (fields_from (suc n) s)

abbrev pub has_tab : Bytes → Bool
has_tab [] = false
has_tab (c ∷ s) = c == tab || has_tab s

abbrev pub NoTabs : List Bytes → Type 0
NoTabs [] = 0 ≤ 0
NoTabs (f ∷ fs) = (has_tab f ≡ false) × NoTabs fs

-- each field with a tab behind it
abbrev pub tabbed : List Bytes → Bytes
tabbed [] = []
tabbed (f ∷ fs) = f ++ (tab ∷ tabbed fs)

cut-tabbed : (f s : Bytes) → has_tab f ≡ false → cut_tab (f ++ (tab ∷ s)) ≡ some (f, s)
unfolding cut_tab
cut-tabbed [] s h = refl
cut-tabbed (c ∷ f) s h = elim (Bool-cases (c == tab)) [
  | inl here ↦ let clash : true ≡ false = rw here at h in cc
  | inr other ↦ rw (other, cut-tabbed f s (rw other at h)) refl
]

cut_whole : (s : Bytes) → has_tab s ≡ false → cut_tab s ≡ none
unfolding cut_tab
cut_whole [] h = refl
cut_whole (c ∷ s) h = elim (Bool-cases (c == tab)) [
  | inl here ↦ let clash : true ≡ false = rw here at h in cc
  | inr other ↦ rw (other, cut_whole s (rw other at h)) refl
]

fields_cut :
    (n : ℕ) (s x y : Bytes)
    → cut_tab s ≡ some (x, y)
    → fields_from (suc n) s ≡ (x ∷ (fields_from n y).0, (fields_from n y).1)
unfolding fields_from
fields_cut n s x y e = rw (fields_from, e) refl

fields_whole : (n : ℕ) (s : Bytes) → has_tab s ≡ false → fields_from (suc n) s ≡ (s ∷ [], [])
unfolding fields_from
fields_whole n s h = let e = cut_whole s h in rw (fields_from, e) refl

-- the fields with tabs behind them come first
fields-tabbed :
    (fs : List Bytes) (k : ℕ) (s : Bytes)
    → NoTabs fs
    → fields_from (length fs + k) (tabbed fs ++ s)
      ≡ (fs ++ (fields_from k s).0, (fields_from k s).1)
fields-tabbed [] k s h = ap (λ n. fields_from n s) (omega arith)
fields-tabbed (f ∷ fs) k s (h, hs) =
    let n : suc (length fs) + k ≡ suc (length fs + k) = omega arith in
    let cut : cut_tab ((f ++ (tab ∷ tabbed fs)) ++ s) ≡ some (f, tabbed fs ++ s) =
      ap cut_tab (append_assoc f (tab ∷ tabbed fs) s) ∙ cut-tabbed f (tabbed fs ++ s) h in
    ap (λ m. fields_from m (tabbed (f ∷ fs) ++ s)) n
    ∙ fields_cut (length fs + k) (tabbed (f ∷ fs) ++ s) f (tabbed fs ++ s) cut
    ∙ ap (λ (r : List Bytes × Bytes). (f ∷ r.0, r.1)) (fields-tabbed fs k s hs)

-- where all fields are there, none is filled in
filled_all : (n : ℕ) (fs : List Bytes) (s : Bytes) → length fs ≡ n → filled n (fs, s) ≡ (fs, s, n)
filled_all n fs s h =
    let e : n - length fs ≡ 0 = omega arith in
    let same : fs ++ replicate (n - length fs) [] ≡ fs =
      ap (λ m. fs ++ replicate m []) e ∙ append-nil fs in
    ap₂ (λ (x : List Bytes) (m : ℕ). (x, s, m)) same h

journal_split_lem :
    (s : Bytes) (n : ℕ) → journal_split (some s) (suc n) ≡ filled (suc n) (fields_from (suc n) s)
unfolding journal_split
journal_split_lem s n = refl

-- Of a line of tabbed fields without tabs, at least one, o9_journal_split for so many fields gives these
-- fields, and what follows, tabs and all, as the detail; for one field more and a rest without
-- tabs, the rest is the last field, and the detail is empty.
pub journal_split-tabbed :
    (f : Bytes) (fs : List Bytes) (s : Bytes)
    → NoTabs (f ∷ fs)
    → (journal_split (some (tabbed (f ∷ fs) ++ s)) (length (f ∷ fs)) ≡ (f ∷ fs, s, length (f ∷ fs)))
      × (has_tab s ≡ false
          → journal_split (some (tabbed (f ∷ fs) ++ s)) (length (f ∷ fs) + 1)
            ≡ (f ∷ fs ++ s ∷ [], [], length (f ∷ fs) + 1))
unfolding fields_from
journal_split-tabbed f fs s h = (
  journal_split_lem (tabbed gs ++ s) (length fs)
      ∙ ap (filled (length gs))
          (ap (λ n. fields_from n (tabbed gs ++ s)) zero_more ∙ fields-tabbed gs 0 s h)
      ∙ ap (λ (x : List Bytes). filled (length gs) (x, s)) (append-nil gs)
      ∙ filled_all (length gs) gs s refl,
  λ whole.
      ap (journal_split (some (tabbed gs ++ s))) one_more
      ∙ journal_split_lem (tabbed gs ++ s) (length gs)
      ∙ ap (filled (suc (length gs))) (
          ap (λ n. fields_from n (tabbed gs ++ s)) (sym one_more)
          ∙ fields-tabbed gs 1 s h
          ∙ ap (λ (r : List Bytes × Bytes). (gs ++ r.0, r.1)) (fields_whole 0 s whole))
      ∙ filled_all (suc (length gs)) (gs ++ s ∷ []) [] (omega (arith, length-append gs (s ∷ [])))
      ∙ ap (λ n. (gs ++ s ∷ [], [], n)) (sym one_more),
)
  where
    gs : List Bytes
    gs = f ∷ fs

    zero_more : length gs ≡ length gs + 0
    zero_more = omega arith

    one_more : length gs + 1 ≡ suc (length gs)
    one_more = omega arith

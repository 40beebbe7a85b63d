-- ===== src/Merge/Seen.antt =====
-- What the table of grid/o9mutmerge.c says of a task, and how the first result of a task changes it.
use objective_9c.Prelude.{
  ℕ, ◌≤◌, ◌≡◌, refl, sym, ap, subst, ◌∙◌, ◌≢◌, List, [], ◌∷◌, ◌++◌, Option, some, none, Bool, true,
  false, not, ◌&&◌, ◌||◌, ◌==◌, arith, Bytes, bytes_eq, bytes_eq_sound, bytes_eq_self, inl, inr,
  Bool-cases, ℕ_discrete,
}
use objective_9c.Merge.{Chain, Merge, Entry, put, hstr, find_entry, mark_seen}
use objective_9c.Merge.Tasks.{has_text}

has_text-append :
    (x : Bytes) (ys zs : List Bytes) → has_text x (ys ++ zs) ≡ (has_text x ys || has_text x zs)
has_text-append x [] zs = refl
has_text-append x (y ∷ ys) zs = elim (Bool-cases (bytes_eq y x)) [
  | inl here ↦ rw here refl
  | inr other ↦ rw (other, has_text-append x ys zs) refl
]

-- what the table says of an id
abbrev pub known : Option Entry → Bool
known none = false
known (some e) = true

abbrev pub waits : Option Entry → Bool
waits none = false
waits (some e) = not e.seen

-- Every entry stands in the bucket of its hash, once.
abbrev pub Placed : ℕ → Chain → Type 0
Placed h [] = 0 ≤ h
Placed h (e ∷ es) = (hstr e.id ≡ h) × (find_entry es e.id ≡ none) × Placed h es

abbrev pub AllPlaced : Merge → Type 0
AllPlaced m = (h : ℕ) → Placed h (m.tab h)

-- A lookup after a bucket is replaced
pub lookup_put :
    (tab : ℕ → Chain) (a b : Bytes) (c : Chain) (P : Option Entry → Type 0)
    → (hstr a ≡ hstr b → P (find_entry c b))
    → (hstr a ≢ hstr b → P (find_entry (tab (hstr b)) b))
    → P (find_entry (put tab (hstr a) c (hstr b)) b)
lookup_put tab a b c P same other = elim (ℕ_discrete (hstr a) (hstr b)) [
  | yes e ↦ let t : (hstr b == hstr a) ≡ true = ground arith in simp t (same e)
  | no ne ↦ let t : (hstr b == hstr a) ≡ false = ground arith in simp t (other ne)
]

pub and_true : (b : Bool) → (b && true) ≡ b
and_true true = refl
and_true false = refl

pub and_false : (b : Bool) → (b && false) ≡ false
and_false true = refl
and_false false = refl

pub bytes_ne : (a b : Bytes) → a ≢ b → bytes_eq a b ≡ false
bytes_ne a b ne = elim (Bool-cases (bytes_eq a b)) [
  | inl same ↦ absurd (ne (bytes_eq_sound a b same))
  | inr differ ↦ differ
]

differs_back : (id e x : Bytes) → e ≡ x → bytes_eq e id ≡ false → bytes_eq id x ≡ false
differs_back id e x eq other = bytes_ne id x (λ same.
    let clash : bytes_eq e id ≡ true =
      subst (λ z. bytes_eq e z ≡ true) (eq ∙ sym same) (bytes_eq_self e) in
    cc)

pub find_entry-mark_seen :
    (c : Chain) (id row file x : Bytes)
    → (known (find_entry (mark_seen c id row file) x) ≡ known (find_entry c x))
      × (waits (find_entry (mark_seen c id row file) x)
          ≡ (waits (find_entry c x) && not (bytes_eq id x)))
unfolding find_entry mark_seen
find_entry-mark_seen [] id row file x = (refl, refl)
find_entry-mark_seen (e ∷ es) id row file x = elim (Bool-cases (bytes_eq e.id id)) [
  | inl here ↦
      let eq : e.id ≡ id = bytes_eq_sound e.id id here in
      let agree : bytes_eq id x ≡ bytes_eq e.id x = ap (λ z. bytes_eq z x) (sym eq) in
      elim (Bool-cases (bytes_eq e.id x)) [
        | inl this ↦ simp (here, this, agree) (refl, sym (and_false (not e.seen)))
        | inr that ↦ simp (here, that, agree) (refl, sym (and_true (waits (find_entry es x))))
      ]
  | inr other ↦ elim (Bool-cases (bytes_eq e.id x)) [
    | inl this ↦
        let eq : e.id ≡ x = bytes_eq_sound e.id x this in
        let apart : bytes_eq id x ≡ false = differs_back id e.id x eq other in
        simp (other, this, apart) (refl, sym (and_true (not e.seen)))
    | inr that ↦ simp (other, that) (find_entry-mark_seen es id row file x)
  ]
]

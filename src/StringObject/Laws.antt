-- ===== src/StringObject/Laws.antt =====
-- The block of a string has room for its closing nul, and the count of references frees it in time.
use objective_9c.Prelude.{
  ℕ, zero, suc, ◌+◌, ◌-◌, ◌*◌, ◌/◌, ◌≤◌, ◌<◌, ◌≡◌, refl, ◌∙◌, inl, inr, List, [], ◌∷◌, some, Bool,
  true, false, ◌==◌, ltb, leb, arith, Bool-cases, Bytes, length, take_all,
}
use objective_9c.Prelude.Int.{pos}
use objective_9c.StringObject.{
  StringObject, max_ulong, size_class, string_new, string_from_c, retain, release, drop_ref,
}

size_class_lem : (rounds len c : ℕ) → 0 < c → len < c + rounds → len < size_class rounds len c
unfolding size_class
size_class_lem zero len c h k = omega arith
size_class_lem (suc rounds) len c h k = elim (Bool-cases (leb c len)) [
  | inr done ↦ rw done (ground arith)
  | inl more ↦ elim (Bool-cases (ltb (max_ulong / 2) c)) [
    | inl last ↦ rw (more, last) (omega arith)
    | inr next ↦ rw (more, next) (size_class_lem rounds len (c * 2) (omega arith) (omega arith))
  ]
]

-- Of a C string of at most 2 ^ 32 - 2 bytes `o9_string_from_c`, with memory, makes the string of those
-- bytes with one reference, in a block that has room for the closing nul.
pub string_from_c_lem :
    (junk s : Bytes)
    → length s ≤ max_ulong - 1
    → (o : StringObject) × (string_from_c true junk (some s) ≡ some o)
      × (o.bytes ≡ s)
      × (length s < o.cap)
      × (o.ref ≡ pos 1)
      × (o.freed ≡ false)
unfolding string_from_c string_new
string_from_c_lem junk s h =
    let fits : ltb (max_ulong - 1) (length s) ≡ false = ground arith in
    rw fits (
      _,
      refl,
      take_all (length s) s (omega arith),
      size_class_lem (length s + 1) (length s) 32 (omega arith) (omega arith),
      refl,
      refl,
    )

-- the number of owners, along a sequence of retains (true) and releases (false)
abbrev pub owners : ℕ → List Bool → ℕ
owners n [] = n
owners n (true ∷ ops) = owners (suc n) ops
owners zero (false ∷ ops) = 0
owners (suc n) (false ∷ ops) = owners n ops

-- each call is made by someone who owns the string
abbrev pub IsOwned : ℕ → List Bool → Type 0
IsOwned n [] = 0 ≤ n
IsOwned zero (b ∷ ops) = 1 ≤ 0
IsOwned (suc n) (true ∷ ops) = IsOwned (suc (suc n)) ops
IsOwned (suc n) (false ∷ ops) = IsOwned n ops

abbrev pub run : StringObject → List Bool → StringObject
run s [] = s
run s (true ∷ ops) = run (retain s) ops
run s (false ∷ ops) = run (release s) ops

-- the object agrees with the number of its owners: it is freed when there is none
abbrev Agrees : ℕ → StringObject → Type 0
Agrees n s = (s.ref ≡ pos n) × (s.freed ≡ (n == 0))

retain-Agrees : (n : ℕ) (s : StringObject) → Agrees (suc n) s → Agrees (suc (suc n)) (retain s)
unfolding retain
retain-Agrees n s (e, f) = rw e (refl, f ∙ ground arith)

release-Agrees : (n : ℕ) (s : StringObject) → Agrees (suc n) s → Agrees n (release s)
unfolding release drop_ref
release-Agrees zero s (e, f) = rw e (refl, refl)
release-Agrees (suc n) s (e, f) = rw e (refl, f ∙ ground arith)

-- While only owners retain and release a heap string, its count is the number of owners, and it is
-- freed exactly if none is left: never earlier, and not forgotten.
pub run-refs :
    (ops : List Bool) (n : ℕ) (s : StringObject)
    → IsOwned n ops
    → s.ref ≡ pos n
    → s.freed ≡ (n == 0)
    → ((run s ops).ref ≡ pos (owners n ops)) × ((run s ops).freed ≡ (owners n ops == 0))
run-refs [] n s h e f = (e, f)
run-refs (b ∷ ops) zero s h e f = elim h [ ]
run-refs (true ∷ ops) (suc n) s h e f =
    let (e', f') = retain-Agrees n s (e, f) in run-refs ops (suc (suc n)) (retain s) h e' f'
run-refs (false ∷ ops) (suc n) s h e f =
    let (e', f') = release-Agrees n s (e, f) in run-refs ops n (release s) h e' f'

-- ===== src/Dict/Round.antt =====
-- A dictionary comes back from its text.
use objective_9c.Prelude.{
  ℕ, suc, ◌≤◌, ◌<◌, ◌≡◌, refl, sym, ap, ap₂, ◌∙◌, List, [], ◌∷◌, ◌++◌, append_assoc, Option, some,
  none, true, false, ◌==◌, Bytes,
}
use objective_9c.Dict.{Cell, Kind, Entry, Chain, Dict, setv}
use objective_9c.Dict.Wire.{
  Numbers, first_line, lines, split_colon, behind_byte, cell_text, entry_text, parse_cell, set_line,
}
use objective_9c.Dict.Hex.{ReadsInts, IsPortable, parse_cell-cell_text}

abbrev pub Without : ℕ → Bytes → Type 0
Without x [] = 0 ≤ x
Without x (c ∷ s) = ((c == x) ≡ false) × Without x s

Without-append : (x : ℕ) (a b : Bytes) → Without x a → Without x b → Without x (a ++ b)
Without-append x [] b h k = k
Without-append x (c ∷ a) b (ne, h) k = (ne, Without-append x a b h k)

lines-append : (l s : Bytes) → Without b'\n' l → lines (l ++ (b'\n' ∷ s)) ≡ l ∷ lines s
unfolding lines first_line
lines-append [] s h = refl
lines-append (c ∷ l) s (ne, h) = rw (ne, lines-append l s h) refl

split_colon-append : (k v : Bytes) → Without b':' k → split_colon (k ++ (b':' ∷ v)) ≡ some (k, v)
unfolding split_colon behind_byte
split_colon-append [] v h = refl
split_colon-append (c ∷ k) v (ne, h) = rw (ne, split_colon-append k v h) refl

-- a dictionary for the same types
pub record SameType (d r : Dict) : Type 0 where
  pub keysz_eq : r.keysz ≡ d.keysz
  pub valsz_eq : r.valsz ≡ d.valsz
  pub keykind_eq : r.keykind ≡ d.keykind
  pub valkind_eq : r.valkind ≡ d.valkind

module _ (numbers : Numbers) where
  -- an entry whose text says all of it: both cells portable, no ":" in the key, no newline in either
  pub record IsWritable (d : Dict) (e : Entry) : Type 0 where
    pub key_portable : IsPortable d.keykind d.keysz e.key
    pub val_portable : IsPortable d.valkind d.valsz e.val
    pub key_colon : Without b':' (cell_text numbers d.keykind e.key)
    pub key_line : Without b'\n' (cell_text numbers d.keykind e.key)
    pub val_line : Without b'\n' (cell_text numbers d.valkind e.val)

  abbrev pub AllWritable : Dict → Chain → Type 0
  AllWritable d [] = 0 < suc d.keysz
  AllWritable d (e ∷ es) = IsWritable d e × AllWritable d es

  abbrev pub AllChains : Dict → List Chain → Type 0
  AllChains d [] = 0 < suc d.keysz
  AllChains d (c ∷ cs) = AllWritable d c × AllChains d cs

  pub line_of : Dict → Entry → Bytes
  line_of d e = cell_text numbers d.keykind e.key ++ (b':' ∷ cell_text numbers d.valkind e.val)

  pub lines-entry_text :
      (d : Dict) (e : Entry) (s : Bytes)
      → IsWritable d e
      → lines (entry_text numbers d e ++ s) ≡ line_of d e ∷ lines s
  unfolding entry_text line_of
  lines-entry_text d e s w =
      let k = cell_text numbers d.keykind e.key in
      let v = cell_text numbers d.valkind e.val in
      let one : (k ++ (b':' ∷ (v ++ (b'\n' ∷ [])))) ++ s ≡ k ++ (b':' ∷ (v ++ (b'\n' ∷ s))) =
        append_assoc k (b':' ∷ (v ++ (b'\n' ∷ []))) s
        ∙ ap (λ z. k ++ (b':' ∷ z)) (append_assoc v (b'\n' ∷ []) s) in
      let two : k ++ (b':' ∷ (v ++ (b'\n' ∷ s))) ≡ (k ++ (b':' ∷ v)) ++ (b'\n' ∷ s) =
        sym (append_assoc k (b':' ∷ v) (b'\n' ∷ s)) in
      ap lines (one ∙ two)
      ∙ lines-append (k ++ (b':' ∷ v)) s
          (Without-append b'\n' k (b':' ∷ v) w.key_line (refl, w.val_line))

  pub set_line-line_of :
      (d r : Dict) (e : Entry)
      → ReadsInts numbers
      → SameType d r
      → IsWritable d e
      → set_line numbers r (line_of d e) ≡ setv true r e.key (some e.val)
  unfolding set_line line_of
  set_line-line_of d r e ints t w =
      let k = cell_text numbers d.keykind e.key in
      let v = cell_text numbers d.valkind e.val in
      let split = split_colon-append k v w.key_colon in
      let kp = parse_cell-cell_text numbers d.keykind d.keysz e.key ints w.key_portable in
      let vp = parse_cell-cell_text numbers d.valkind d.valsz e.val ints w.val_portable in
      let key : parse_cell numbers r.keykind r.keysz k ≡ e.key =
        ap₂ (λ (z : Kind) (m : ℕ). parse_cell numbers z m k) t.keykind_eq t.keysz_eq ∙ kp in
      let val : parse_cell numbers r.valkind r.valsz v ≡ e.val =
        ap₂ (λ (z : Kind) (m : ℕ). parse_cell numbers z m v) t.valkind_eq t.valsz_eq ∙ vp in
      ap
        (λ (o : Option (Bytes × Bytes)). elim o [
          | none ↦ r
          | some (a, b) ↦
              setv true r (parse_cell numbers r.keykind r.keysz a)
                (some (parse_cell numbers r.valkind r.valsz b))
        ])
        split
      ∙ ap₂ (λ (a b : Cell). setv true r a (some b)) key val

  -- the entries of a chain set one after the other
  abbrev pub set_all : Dict → Chain → Dict
  set_all r [] = r
  set_all r (e ∷ es) = set_all (setv true r e.key (some e.val)) es

  abbrev pub set_chains : Dict → List Chain → Dict
  set_chains r [] = r
  set_chains r (c ∷ cs) = set_chains (set_all r c) cs

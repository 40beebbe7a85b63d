-- ===== src/Text/Case.antt =====
-- o9_string_lower and o9_string_upper.
use objective_9c.Prelude.{ℕ, ◌≡◌, refl, ap₂, [], ◌∷◌, map, arith, Bytes, length, length-map}
use objective_9c.Text.{lower_byte, upper_byte, lower, upper}

upper-lower_byte : (c : ℕ) → upper_byte (lower_byte c) ≡ upper_byte c
unfolding upper_byte lower_byte
upper-lower_byte c = ground arith

lower-upper_byte : (c : ℕ) → lower_byte (upper_byte c) ≡ lower_byte c
unfolding upper_byte lower_byte
lower-upper_byte c = ground arith

map_twice : (f g h : ℕ → ℕ) (s : Bytes) → ((c : ℕ) → f (g c) ≡ h c) → map f (map g s) ≡ map h s
map_twice f g h [] e = refl
map_twice f g h (c ∷ s) e = ap₂ ◌∷◌ (e c) (map_twice f g h s e)

-- Upper and lower case forget the same letters: each undoes the other and nothing else, and neither
-- changes the length.
pub case_laws :
    (s : Bytes)
    → (upper (lower s) ≡ upper s)
      × (lower (upper s) ≡ lower s)
      × (length (lower s) ≡ length s)
      × (length (upper s) ≡ length s)
unfolding lower upper
case_laws s = (
  map_twice upper_byte lower_byte upper_byte s upper-lower_byte,
  map_twice lower_byte upper_byte lower_byte s lower-upper_byte,
  length-map s lower_byte,
  length-map s upper_byte,
)

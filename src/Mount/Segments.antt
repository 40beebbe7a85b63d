-- ===== src/Mount/Segments.antt =====
-- The scan for ".." is the search for that segment among the segments of the path.
use objective_9c.Prelude.{
  ◌≡◌, refl, List, [], ◌∷◌, Bool, true, false, ◌&&◌, ◌||◌, ◌==◌, arith, if◌then◌else◌, Bytes,
  bytes_eq, codes, some,
}
use objective_9c.Mount.{slash, starts_dotdot, dotdot_from, has_dotdot}

-- the first segment of a path, and the others
abbrev pub segs : Bytes → Bytes × List Bytes
segs [] = ([], [])
segs (c ∷ s) = if c == slash then ([], (segs s).0 ∷ (segs s).1) else (c ∷ (segs s).0, (segs s).1)

abbrev pub segments : Bytes → List Bytes
segments s = (segs s).0 ∷ (segs s).1

abbrev pub is_dotdot : Bytes → Bool
is_dotdot s = bytes_eq s (codes "..")

abbrev pub any_dotdot : List Bytes → Bool
any_dotdot [] = false
any_dotdot (s ∷ ss) = is_dotdot s || any_dotdot ss

starts_dotdot_lem : (s : Bytes) → starts_dotdot s ≡ is_dotdot (segs s).0
unfolding starts_dotdot bytes_eq
starts_dotdot_lem [] = refl
starts_dotdot_lem (a ∷ []) = ground arith
starts_dotdot_lem (a ∷ b ∷ []) = ground arith
starts_dotdot_lem (a ∷ b ∷ c ∷ s) = ground arith

dotdot_from_lem :
    (atseg : Bool) (s : Bytes)
    → dotdot_from atseg s ≡ (atseg && is_dotdot (segs s).0 || any_dotdot (segs s).1)
unfolding dotdot_from bytes_eq
dotdot_from_lem atseg [] = unfold starts_dotdot in ground arith
dotdot_from_lem atseg (c ∷ s) =
    ground (arith, starts_dotdot_lem (c ∷ s), dotdot_from_lem (c == slash) s)

-- `o9_mt_has_dotdot` finds a ".." exactly if a segment of the path between slashes is one.
pub has_dotdot_lem : (s : Bytes) → has_dotdot (some s) ≡ any_dotdot (segments s)
unfolding has_dotdot
has_dotdot_lem s = dotdot_from_lem true s

-- ===== src/Mount.antt =====
-- What a MountTable of o9_runtime.c accepts in its cells: the texts, paths, flags and modes that
-- o9_mt_bad_text0, o9_mt_has_dotdot, o9_mt_target_ok, o9_mt_source_ok, o9_mt_srv_source_ok,
-- o9_mt_net_source_ok, o9_mt_near_source_ok, o9_mt_flag_ok and o9_mt_mode_ok pass, and the path that
-- o9_mt_join makes. A nil pointer is `none`; a `vlong` is a ℤ.
pub mod Segments
pub mod Confined
pub mod Tests
use objective_9c.Prelude.{
  ℕ, ◌+◌, ◌%◌, List, [], ◌∷◌, ◌++◌, Option, some, none, Bool, true, false, ◌&&◌, ◌||◌, not, ◌==◌,
  ltb, leb, if◌then◌else◌, Bytes, bytes_eq, codes, take,
}
use objective_9c.Prelude.Libc.{Libc}
use objective_9c.Prelude.Int.{ℤ, pos, negsuc}

abbrev pub slash : ℕ
slash = b'/'

abbrev pub dot : ℕ
dot = b'.'

-- the loop of o9_mt_bad_text0
unfoldable pub has_control : Bytes → Bool
has_control [] = false
has_control (c ∷ s) = ltb c 0x20 || c == 0x7f || has_control s

unfoldable pub bad_text0 : Option Bytes → Bool → Bool
bad_text0 none emptyok = true
bad_text0 (some []) emptyok = not emptyok
bad_text0 (some (c ∷ s)) emptyok = has_control (c ∷ s)

unfoldable pub bad_text : Option Bytes → Bool
bad_text s = bad_text0 s false

-- p[0] == '.' && p[1] == '.' && (p[2] == '/' || p[2] == '\0')
unfoldable pub starts_dotdot : Bytes → Bool
starts_dotdot [] = false
starts_dotdot (a ∷ []) = false
starts_dotdot (a ∷ b ∷ []) = a == dot && b == dot
starts_dotdot (a ∷ b ∷ c ∷ s) = a == dot && b == dot && c == slash

-- the loop of o9_mt_has_dotdot
unfoldable pub dotdot_from : Bool → Bytes → Bool
dotdot_from atseg [] = atseg && starts_dotdot []
dotdot_from atseg (c ∷ s) = atseg && starts_dotdot (c ∷ s) || dotdot_from (c == slash) s

unfoldable pub has_dotdot : Option Bytes → Bool
has_dotdot none = true
has_dotdot (some s) = dotdot_from true s

-- the first byte; 0 at the end of the string
unfoldable pub first_byte : Option Bytes → ℕ
first_byte none = 0
first_byte (some []) = 0
first_byte (some (c ∷ s)) = c

-- strcmp(s, t) == 0 for a text that is not nil
is_text : Option Bytes → Bytes → Bool
is_text none t = false
is_text (some s) t = bytes_eq s t

unfoldable pub target_ok : Option Bytes → Bool
unfolding is_text
target_ok target =
    if bad_text target
    then false
    else if first_byte target == slash
    then false
    else if is_text target (codes ".")
    then true
    else not (has_dotdot target)

unfoldable pub source_ok : Option Bytes → Bool
source_ok source =
    if bad_text source
    then false
    else if not (first_byte source == slash) && not (first_byte source == b'#')
    then false
    else not (has_dotdot source)

-- strncmp(s, t, strlen(t)) == 0
unfoldable pub starts_with : Bytes → Bytes → Bool
starts_with s [] = true
starts_with [] (t ∷ ts) = false
starts_with (c ∷ s) (t ∷ ts) = c == t && starts_with s ts

prefix_of : Option Bytes → Bytes → Bool
prefix_of none t = false
prefix_of (some s) t = starts_with s t

unfoldable pub srv_source_ok : Option Bytes → Bool
unfolding prefix_of
srv_source_ok source = if source_ok source then prefix_of source (codes "/srv/") else false

unfoldable pub net_source_ok : Option Bytes → Bool
unfolding prefix_of
net_source_ok source =
    if bad_text source
    then false
    else prefix_of source (codes "tcp!")
      || prefix_of source (codes "il!")
      || prefix_of source (codes "net!")

unfoldable pub near_source_ok : Option Bytes → Bool
unfolding prefix_of
near_source_ok source =
    srv_source_ok source || (prefix_of source (codes "il!") && net_source_ok source)

-- `flag & ~7` is 0 for 0 to 7, and `flag & 3` is the place
unfoldable pub flag_ok : ℤ → Bool
flag_ok (negsuc n) = false
flag_ok (pos flag) = if ltb 7 flag then false else if flag % 4 == 3 then false else true

unfoldable pub mode_ok : ℤ → Bool
mode_ok (negsuc n) = false
mode_ok (pos mode) = leb mode 0o777

-- What o9_mt_join leaves in a buffer of `nout` bytes, if it returns 0; `none` is -1. The buffer is not
-- nil. "%s/%s" is written as "%s" of the whole text.
unfoldable pub join : Libc → ℕ → Option Bytes → Option Bytes → Option Bytes
unfolding is_text
join libc nout none target = none
join libc nout (some root) none = none
join libc nout (some root) (some target) =
    if nout == 0
    then none
    else if not (target_ok (some target))
    then none
    else if bytes_eq target (codes ".")
    then some (libc.snprint nout root)
    else some (libc.snprint nout (root ++ slash ∷ target))

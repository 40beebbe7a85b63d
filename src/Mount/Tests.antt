-- ===== src/Mount/Tests.antt =====
-- Small paths and cells.
use objective_9c.Prelude.{
  ◌-◌, arith, take, take_all, length-take, ◌≡◌, refl, [], ◌∷◌, some, true, false, bytes_eq, codes,
}
use objective_9c.Prelude.Int.{pos}
use objective_9c.Prelude.Libc.{Libc}
use objective_9c.Mount.{
  target_ok, srv_source_ok, source_ok, bad_text, has_control, bad_text0, has_dotdot, dotdot_from,
  starts_dotdot, join, first_byte, starts_with, flag_ok,
}
use objective_9c.Mount.Segments.{segments, any_dotdot, has_dotdot_lem}
use objective_9c.Mount.Confined.{Below, walk, target_confined, join_confined}

deep : target_ok (some (codes "a/..b/c")) ≡ true
unfolding target_ok bad_text bad_text0 has_control has_dotdot dotdot_from starts_dotdot first_byte
    bytes_eq
deep = refl

upwards : target_ok (some (codes "a/../b")) ≡ false
unfolding target_ok bad_text bad_text0 has_control has_dotdot dotdot_from starts_dotdot first_byte
    bytes_eq
upwards = refl

flag_three : flag_ok (pos 3) ≡ false
unfolding flag_ok
flag_three = refl

-- a snprint that cuts at bytes
abbrev ascii : Libc
ascii = record {
  snprint = λ n s. take (n - 1) s;
  snprint_fits = λ n s h. take_all (n - 1) s (omega arith);
  snprint_bound = λ n s h. omega (arith, length-take (n - 1) s);
  pointer_text = λ n. [];
}

joined : join ascii 512 (some (codes "/n/x")) (some (codes "a/..b/c")) ≡ some (codes "/n/x/a/..b/c")
unfolding join bytes_eq
joined = rw deep refl

-- "..b" in a buffer that has no room for its last byte
accepted : target_ok (some (codes "..b")) ≡ true
unfolding target_ok bad_text bad_text0 has_control has_dotdot dotdot_from starts_dotdot first_byte
    bytes_eq
accepted = refl

cut_to_dotdot : join ascii 8 (some (codes "/n/x")) (some (codes "..b")) ≡ some (codes "/n/x/..")
unfolding join bytes_eq
cut_to_dotdot = rw accepted refl

service : srv_source_ok (some (codes "/srv/o9.main")) ≡ true
unfolding srv_source_ok source_ok bad_text bad_text0 has_control has_dotdot dotdot_from
    starts_dotdot first_byte starts_with
service = refl

target_confined_example :
    Below (codes "root" ∷ []) (walk (codes "root" ∷ []) (segments (codes "a/..b/c")))
target_confined_example = target_confined (codes "a/..b/c") (codes "root" ∷ []) deep

join_confined_example :
    Below (walk [] (segments (codes "/n/x"))) (walk [] (segments (codes "/n/x/a/..b/c")))
join_confined_example =
    join_confined ascii 512 (codes "/n/x") (codes "a/..b/c") (codes "/n/x/a/..b/c") (omega arith)
      joined

has_dotdot_lem_example : has_dotdot (some (codes "a/../b")) ≡ any_dotdot (segments (codes "a/../b"))
has_dotdot_lem_example = has_dotdot_lem (codes "a/../b")

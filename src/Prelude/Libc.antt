-- ===== src/Prelude/Libc.antt =====
-- The parts of the C library that the runtime formats text with: parameters of the model, with
-- their documented behaviour.
use Prim.Native.Nat.{ℕ, ◌<◌}
use mathlib.Core.Path.{◌≡◌}
use objective_9c.Prelude.Text.{Bytes}
use objective_9c.Prelude.Lists.{length}

pub record Libc : Type 0 where
  -- what snprint(buf, n, "%s", s) leaves in `buf`
  pub snprint : ℕ → Bytes → Bytes
  pub snprint_fits : (n : ℕ) (s : Bytes) → length s < n → snprint n s ≡ s
  pub snprint_bound : (n : ℕ) (s : Bytes) → 0 < n → length (snprint n s) < n
  -- the text of a pointer under "%p"
  pub pointer_text : ℕ → Bytes

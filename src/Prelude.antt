-- ===== src/Prelude.antt =====
-- The names that the other modules share: the libraries', passed on, and those of the children.
mod Tests
mod Lists
mod Text
pub mod Count
pub mod Libc
pub mod Int
pub use Tests.*
pub use Lists.*
pub use Text.{Bytes, bytes_eq_sound, bytes_eq_self, bytes_eq_iff, clip, take_all, codes}
pub use Prim.Native.Nat.{ℕ, zero, suc, ◌+◌, ◌-◌, ◌*◌, ◌/◌, ◌%◌, ◌^◌, ◌≤◌, ◌<◌, min, max}
pub use mathlib.Core.Path.{◌≡◌, refl, sym, ap, ap₂, subst, ◌∙◌}
pub use mathlib.Core.Logic.{◌≢◌, ◌↔◌, ◌⊎◌, inl, inr}
pub use mathlib.Core.Bool.{Bool, true, false, not, ◌&&◌, ◌||◌}
pub use mathlib.Core.Option.{Option, none, some}
pub use mathlib.Core.List.{List, [], ◌∷◌, ◌++◌, map, append_assoc, append-nil}
pub use native.Mathlib.Omega.{arith}
pub use native.Mathlib.Nat.{
  suc-mul, add-mul, mod-lt, mod_self, mod-eq_of_lt, mod-add-mod, mod-eq-sub-mod,
}
unfoldable pub use Text.{bytes_eq}
unfoldable pub use native.Mathlib.Decide.{dec_lt, ℕ_discrete}

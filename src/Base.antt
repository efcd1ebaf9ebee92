-- ===== src/Base.antt =====
-- Names that the other modules share: those of the libraries, passed on, Boolean tests, the maps and
-- slices of Go, and words of 64 bits.
mod Tests
mod Maps
mod Lists
mod Int
mod Text
unfoldable pub use Tests.*
unfoldable pub use Maps.*
unfoldable pub use Lists.*
unfoldable pub use Text.{text_append, split_text, join_text, decimal}
pub use Text.{join-split_text}
pub use Int.{
  ℤ, pos, negsuc, ◌+ℤ◌, negℤ, is_zeroℤ, ◌-ℤ◌, ltbℤ, div_int, +ℤ_comm, +ℤ_assoc, +ℤ_zero, -ℤ_self,
  +ℤ_replace, -ℤ_restore, +ℤ_moved,
}
pub use Prim.Native.Nat.{ℕ, zero, suc, ◌+◌, ◌-◌, ◌*◌, ◌%◌, ◌^◌, ◌≤◌, ◌<◌}
pub use Prim.Native.String.{String}
pub use mathlib.Core.Path.{◌≡◌, refl, sym, ap, subst, ◌∙◌}
pub use mathlib.Core.Logic.{◌≢◌, ◌↔◌, ◌⊎◌, inl, inr}
pub use mathlib.Core.Bool.{Bool, true, false, not, ◌&&◌, ◌||◌}
pub use mathlib.Core.Option.{Option, none, some}
pub use mathlib.Core.List.{List, [], ◌∷◌, ◌++◌, map}
pub use native.Mathlib.Omega.{arith}
pub use text.Mathlib.Text.{◌==◌ as str_eq}
pub use text.Mathlib.TextEquality.{eq_iff}

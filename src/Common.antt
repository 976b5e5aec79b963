-- ===== src/Common.antt =====
-- The names that the other modules share: the libraries', passed on, and those of the children.
mod Tests
mod Lists
mod Bits
mod Text
mod Decide
pub use Tests.*
pub use Lists.*
unfoldable pub use Lists.{blit}
pub use Bits.*
unfoldable pub use Bits.{holds_below}
unfoldable pub use Text.{bytes_eq, is_prefix, find, find_at, slice, to_lower, to_upper}
pub use Text.{
  c_str, c_str-append, Bytes, codes, NoneOf, bytes_eq_iff, bytes_eq_refl, find_char_free,
  find_char-append, find_char_lt, find-append_miss, slice-append, slice-append_tail, Lowercase,
  to_lower-Lowercase,
}
pub use Decide.*
pub use Prim.Native.Nat.{ℕ, zero, suc, ◌+◌, ◌-◌, ◌*◌, ◌/◌, ◌%◌, ◌^◌, ◌≤◌, ◌<◌, min}
pub use mathlib.Core.Path.{◌≡◌, refl, sym, ap, ◌∙◌, subst, ◌≡⟨◌⟩◌, ◌∎}
pub use mathlib.Core.Logic.{◌≢◌, ◌↔◌, ◌⊎◌, inl, inr}
pub use mathlib.Core.Bool.{Bool, true, false, not, ◌&&◌, ◌||◌}
pub use mathlib.Core.Option.{Option, none, some}
pub use mathlib.Core.List.{List, [], ◌∷◌, ◌++◌, map, append-nil, append_assoc}
pub use native.Mathlib.Omega.{arith}

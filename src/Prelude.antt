-- ===== src/Prelude.antt =====
-- The names that the other modules share: the libraries', and those of the children.
mod Tests
mod Text
mod Maps
pub use Tests.*
unfoldable pub use Text.{
  str_eq, has_prefix, has_last, contains_byte, trim_left, trim_suffix, trim, split, join,
}
pub use Text.{
  Bytes, codes, str_eq_iff, str_eq_refl, cons_head, split-some, split-append, split-Free,
  split-join, Free,
}
unfoldable pub use Maps.{lookup, delete, insert}
pub use Maps.{Dict, lookup-insert, lookup-delete}
pub use Prim.Native.Nat.{ℕ, zero, suc, ◌+◌, ◌-◌, ◌*◌, ◌/◌, ◌%◌, ◌^◌, ◌≤◌, ◌<◌}
pub use Prim.Native.String.{String}
pub use mathlib.Core.Path.{◌≡◌, refl, sym, ap, ◌∙◌}
pub use mathlib.Core.Logic.{◌≢◌, ◌↔◌, ◌⊎◌, inl, inr}
pub use mathlib.Core.Bool.{Bool, true, false, not, ◌&&◌, ◌||◌}
pub use mathlib.Core.Option.{Option, none, some}
pub use mathlib.Core.List.{List, [], ◌∷◌, ◌++◌, map, reverse}
pub use native.Mathlib.Omega.{arith}

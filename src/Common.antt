-- ===== src/Common.antt =====
-- The names that the other modules share: the libraries', passed on, and those of the children.
mod Tests
mod Lists
mod Results
mod Texts
mod Words
mod Dict
pub mod Int
pub use Tests.*
pub use Lists.*
pub use Results.*
unfoldable pub use Dict.{lookup, insert, remove}
pub use Dict.{lookup-insert_self, lookup-insert_ne, text_ne}
unfoldable pub use Texts.{is_space, drop_spaces, strip, is_filled, text_eq, lower}
unfoldable pub use Words.{words, join_spaces, contains, text_lt}
pub use Texts.{Text, codes, between, is_empty, text_eq_sound, text_eq_refl}
pub use Prim.Native.Nat.{ℕ, zero, suc, ◌+◌, ◌-◌, ◌*◌, ◌/◌, ◌%◌, ◌^◌, ◌≤◌, ◌<◌}
pub use Prim.Native.String.{String}
pub use mathlib.Core.Path.{◌≡◌, refl, sym, ap, ◌∙◌}
pub use mathlib.Core.Logic.{◌≢◌, ◌↔◌, ◌⊎◌, inl, inr}
pub use mathlib.Core.Bool.{Bool, true, false, not, ◌&&◌, ◌||◌}
pub use mathlib.Core.Option.{Option, none, some}
pub use mathlib.Core.List.{List, [], ◌∷◌, ◌++◌, map}
pub use native.Mathlib.Omega.{arith}
pub use text.Mathlib.Text.{◌==◌ as str_eq}
pub use text.Mathlib.TextEquality.{eq_iff}

-- ===== src/Base.antt =====
-- Names that the other modules share: the libraries', passed on, and tests, lists and texts.
mod Tests
pub mod Lists
pub mod Text
unfoldable pub use Tests.*
pub use Prim.Native.Nat.{ℕ, zero, suc, ◌+◌, ◌*◌, ◌≤◌, ◌<◌}
pub use Prim.Native.String.{String, ◌++◌ as ◌<>◌}
pub use mathlib.Core.Path.{◌≡◌, refl, sym, ap, ◌∙◌}
pub use mathlib.Core.Logic.{◌≢◌, ◌↔◌, ◌⊎◌, inl, inr}
pub use mathlib.Core.Bool.{Bool, true, false, not, ◌&&◌, ◌||◌}
pub use mathlib.Core.Option.{Option, none, some}
pub use mathlib.Core.List.{List, [], ◌∷◌, ◌++◌, map}
pub use native.Mathlib.Omega.{arith}
pub use text.Mathlib.TextEquality.{eq_iff}

pub full_text : {s : String} → s ≢ "" → (s /= "") ≡ true
full_text {s} h = ground (arith, eq_iff s "")

pub text_full : {s : String} → (s /= "") ≡ true → s ≢ ""
text_full {s} h = ground (arith, eq_iff s "")

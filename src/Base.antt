-- ===== src/Base.antt =====
-- The names that the other modules share.
mod Tests
mod Lists
mod Words
mod Bytes
mod Errors
mod Runs
mod Sort
pub use Tests.*
pub use Lists.*
unfoldable pub use Words.*
unfoldable pub use Bytes.*
unfoldable pub use Errors.*
pub use Runs.*
unfoldable pub use Sort.*
pub use Prim.Native.Nat.{ℕ, zero, suc, ◌+◌, ◌-◌, ◌*◌, ◌/◌, ◌%◌, ◌^◌, ◌≤◌, ◌<◌}
pub use Prim.Native.String.{String}
pub use mathlib.Core.Path.{◌≡◌, refl, sym, ap, ◌∙◌}
pub use mathlib.Core.Logic.{◌≢◌, ◌↔◌, ◌⊎◌, inl, inr}
pub use mathlib.Core.Bool.{Bool, true, false, not, ◌&&◌, ◌||◌}
pub use mathlib.Core.Option.{Option, none, some}
pub use mathlib.Core.List.{List, [], ◌∷◌, ◌++◌, map, append-nil, append_assoc}
pub use native.Mathlib.Omega.{arith}

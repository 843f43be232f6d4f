-- ===== src/Base.antt =====
-- The names that every module of the development shares: the library's, passed on, and those of the
-- children, which stand for the parts of Rust's standard library that the code calls.
pub mod Tests
pub mod Lists
pub mod Chars
pub mod Lines
pub mod Parse
pub mod Options
pub mod Results
pub mod Format
pub mod Json
pub mod JsonAssign
pub mod JsonEq
pub mod JsonKeyed
pub mod Order
pub mod BTreeMap
pub mod BTreeSet
pub use Tests.*
pub use Lists.*
unfoldable pub use Chars.*
pub use Prim.Native.Nat.{ℕ, zero, suc, ◌+◌, ◌-◌, ◌*◌, ◌/◌, ◌%◌, ◌^◌, ◌≤◌, ◌<◌, min, max}
pub use mathlib.Core.Path.{◌≡◌, refl, sym, ap, ◌∙◌, fun_ext}
pub use mathlib.Core.Logic.{◌≢◌, ◌↔◌, ◌⊎◌, inl, inr}
pub use mathlib.Core.Bool.{Bool, true, false, not, ◌&&◌, ◌||◌}
pub use mathlib.Core.Option.{Option, none, some}
pub use mathlib.Core.List.{List, [], ◌∷◌, ◌++◌, map, foldl, foldr, append-nil, append_assoc}
pub use native.Mathlib.Omega.{arith}
unfoldable pub use native.Mathlib.Decide.{dec_lt, ℕ_discrete}

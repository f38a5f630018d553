-- ===== src/Base.antt =====
-- The names that the other modules share: the libraries', passed on, with Boolean tests, machine
-- words, lists over the native numbers and maps with numbers for keys.
pub mod Tests
pub mod Word
pub mod Lists
pub mod Map
pub mod Count
pub mod Heap
pub mod Memory
pub mod Text
pub use Tests.{
  ltb, leb, ◌==◌, if◌then◌else◌, ltb→lt, lt→ltb, leb→le, ==_iff, ==_refl, Bool-cases, Option-cases,
  tests,
}
pub use Word.{u64_mod, add64, sub64}
pub use Lists.{
  length, length-append, keep_if, keep_if-append, drop_if-perm, All, All-append, All-append_left,
  All-append_right, is_listed, is_listed-append, is_listed-keep_if,
}
pub use Prim.Native.Nat.{ℕ, zero, suc, ◌+◌, ◌-◌, ◌*◌, ◌/◌, ◌%◌, ◌^◌, ◌≤◌, ◌<◌}
pub use mathlib.Core.Path.{◌≡◌, refl, sym, ap, subst, ◌∙◌}
pub use mathlib.Core.Logic.{◌≢◌, ◌↔◌, ◌⊎◌, inl, inr}
pub use mathlib.Core.Bool.{Bool, true, false, not, ◌&&◌, ◌||◌}
pub use mathlib.Core.Option.{Option, none, some}
pub use mathlib.Core.List.{List, [], ◌∷◌, ◌++◌, map, Perm}
pub use native.Mathlib.Omega.{arith}

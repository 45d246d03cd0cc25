-- ===== src/Base.antt =====
-- The names that the components share: library names passed on, tests, lists, bytes and results.
mod Tests
mod Lists
pub mod Bits
pub mod Dict
pub mod Int
mod Exceptions
pub use Tests.*
pub use Lists.*
pub use Exceptions.{
  Exc, value_error, index_error, assertion_error, incomplete_read, key_error, file_not_found,
  os_error, type_error, attribute_error, overflow_error,
}
pub use Exceptions.{
  Result, ok, err, ◌>>=◌, Result-cases, map_result, map_result-bind, Ensures, Ensures-ok,
  Ensures-if, Ensures-bind, Ensures-then,
}
pub use Prim.Native.Nat.{
  ℕ, zero, suc, ◌+◌, ◌-◌, ◌*◌, ◌/◌, ◌%◌, ◌^◌, ◌≤◌, ◌<◌, min, max, bit_and, bit_or,
}
pub use mathlib.Core.Path.{◌≡◌, refl, sym, ap, ◌∙◌, subst, fun_ext}
pub use mathlib.Core.Logic.{◌≢◌, ◌↔◌, ◌⊎◌, inl, inr}
pub use mathlib.Core.Bool.{Bool, true, false, ◌&&◌, ◌||◌, not}
pub use mathlib.Core.Option.{Option, none, some}
pub use mathlib.Core.List.{List, [], ◌∷◌, ◌++◌, map, append-nil, append_assoc}
pub use native.Mathlib.Omega.{arith}

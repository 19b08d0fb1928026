-- ===== src/Base.antt =====
-- The names that the other modules share: numbers, tests, words, bits and byte buffers.
mod Tests
mod Words
mod Buffers
mod Texts
pub mod Bits
pub use Tests.*
pub use Words.*
pub use Buffers.*
pub use Texts.{codes}
unfoldable pub use Tests.{holds_from}
unfoldable pub use Buffers.{upd, store_list}
pub use Prim.Native.Nat.{
  ℕ, zero, suc, ◌+◌, ◌-◌, ◌*◌, ◌/◌, ◌%◌, ◌^◌, ◌≤◌, ◌<◌, bit_and, bit_or, bit_xor,
}
pub use mathlib.Core.Path.{◌≡◌, refl, sym, ap, ◌∙◌, fun_ext}
pub use mathlib.Core.Logic.{◌≢◌, ◌↔◌, ◌⊎◌, inl, inr}
pub use mathlib.Core.Bool.{Bool, true, false, not, ◌&&◌, ◌||◌}
pub use mathlib.Core.Option.{Option, none, some}
pub use mathlib.Core.List.{List, [], ◌∷◌, ◌++◌}
pub use native.Mathlib.Omega.{arith}

-- ===== src/Shared.antt =====
-- Names that every other module uses: the library's, passed on, and those of four children
-- (Boolean tests, lists over native indices, tables as functions, 32-bit words).
mod Tests
mod Lists
mod Tables
mod Words
mod Bytes
mod Modulo
pub mod Bits
pub mod Circle
pub use Tests.*
pub use Lists.*
pub use Tables.*
pub use Words.*
pub use Modulo.*
unfoldable pub use Bytes.{write_bytes, read_bytes}
pub use Bytes.{
  length-read_bytes, write_bytes_outside, read_bytes-write_bytes, read_bytes-write_bytes_apart,
  read_bytes-append,
}
pub use Prim.Native.Nat.{ℕ, zero, suc, ◌+◌, ◌-◌, ◌*◌, ◌/◌, ◌%◌, ◌^◌, ◌≤◌, ◌<◌}
pub use mathlib.Core.Path.{◌≡◌, refl, sym, ap, ap₂, ◌∙◌, subst, fun_ext}
pub use mathlib.Core.Logic.{◌≢◌, ◌↔◌, ◌⊎◌, inl, inr}
pub use mathlib.Core.Bool.{Bool, true, false, not, ◌&&◌, ◌||◌}
pub use mathlib.Core.Option.{Option, none, some}
pub use mathlib.Core.List.{List, [], ◌∷◌, ◌++◌, map}
pub use native.Mathlib.Omega.{arith}

-- ===== src/Event/Conditions.antt =====
-- What the waiters of kernel/os_event.c wait for, bit by bit.
use ahura_rtos.Shared.{
  ℕ, zero, suc, ◌/◌, ◌%◌, ◌^◌, ◌<◌, ◌≡◌, Bool, true, false, not, ◌&&◌, ◌||◌, arith, leb, ◌==◌,
}
use Prim.Native.Nat.{bit_and}
use native.Mathlib.Nat.{pow-suc}
use ahura_rtos.Shared.Bits.{bit_and_lowest, bit_and-zero}

-- Each, or some, of the lowest `w` bits of `bits` that are set is set in `flags`.
abbrev pub all_set : ℕ → ℕ → ℕ → Bool
all_set zero flags bits = true
all_set (suc w) flags bits = leb (bits % 2) (flags % 2) && all_set w (flags / 2) (bits / 2)

abbrev pub any_set : ℕ → ℕ → ℕ → Bool
any_set zero flags bits = false
any_set (suc w) flags bits = (bits % 2 == 1) && (flags % 2 == 1) || any_set w (flags / 2) (bits / 2)

pub all_set-bit_and :
    (w flags bits : ℕ) → bits < 2 ^ w → (bit_and flags bits == bits) ≡ all_set w flags bits
all_set-bit_and zero flags bits small =
    let none_set : bits ≡ 0 = omega arith in rw none_set (ground (arith, bit_and-zero flags))
all_set-bit_and (suc w) flags bits small = ground (
  arith,
  bit_and_lowest flags bits,
  all_set-bit_and w (flags / 2) (bits / 2) (omega (arith, pow-suc 2 w)),
)

pub any_set-bit_and :
    (w flags bits : ℕ) → bits < 2 ^ w → not (bit_and flags bits == 0) ≡ any_set w flags bits
any_set-bit_and zero flags bits small =
    let none_set : bits ≡ 0 = omega arith in rw none_set (ground (arith, bit_and-zero flags))
any_set-bit_and (suc w) flags bits small = ground (
  arith,
  bit_and_lowest flags bits,
  any_set-bit_and w (flags / 2) (bits / 2) (omega (arith, pow-suc 2 w)),
)

-- ===== src/Shared/Modulo.antt =====
-- Positions in a ring.
use Prim.Native.Nat.{ℕ, ◌+◌, ◌-◌, ◌%◌, ◌≤◌, ◌<◌}
use mathlib.Core.Path.{◌≡◌, ◌∙◌, ap}
use mathlib.Core.Logic.{◌≢◌, ◌⊎◌, inl, inr}
use native.Mathlib.Omega.{arith}
use native.Mathlib.Nat.{mod-add-mod, mod-eq-sub-mod, mod-eq_of_lt}
use native.Mathlib.Decide.{dec_lt}

-- At most one round.
pub mod_low : (a m : ℕ) → a < m → a % m ≡ a
mod_low a m h = mod-eq_of_lt h

pub mod_high : (a m : ℕ) → m ≤ a → a < m + m → a % m ≡ a - m
mod_high a m low h = mod-eq-sub-mod low ∙ mod-eq_of_lt (omega arith)

pub mod_once : (a m : ℕ) → a < m + m → ((a < m) × (a % m ≡ a)) ⊎ ((m ≤ a) × (a % m ≡ a - m))
mod_once a m h = elim (dec_lt a m) [
  | yes low ↦ inl (low, mod_low a m low)
  | no high ↦ inr (omega arith, mod_high a m (omega arith) h)
]

pub mod_ne : (h j k m : ℕ) → h < m → j < k → k < j + m → k < m + 1 → (h + j) % m ≢ (h + k) % m
mod_ne h j k m inside less near small e = omega (arith, mod_once (h + j) m, mod_once (h + k) m)

pub mod_step : (h k m : ℕ) → ((h + 1) % m + k) % m ≡ (h + (k + 1)) % m
mod_step h k m = mod-add-mod (h + 1) m k ∙ ap (λ t. t % m) (omega arith)

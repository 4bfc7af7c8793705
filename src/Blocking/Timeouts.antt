-- ===== src/Blocking/Timeouts.antt =====
-- The arithmetic of timeouts (kernel/os_internal.h).
use ahura_rtos.Shared.{ℕ, ◌+◌, ◌-◌, ◌*◌, ◌%◌, ◌≤◌, ◌<◌, ◌≡◌, ◌⊎◌, arith, u32_mod}
use ahura_rtos.Status.{wait_forever}
use ahura_rtos.Blocking.Defs.{timeout_to_ticks, wait_remaining}

-- For a timeout that is a word and not OS_WAIT_FOREVER, os_internal_timeout_to_ticks returns a
-- finite number of ticks, which last at least as long as the timeout or are the longest finite
-- wait, and less than one tick longer.
pub timeout_to_ticks_bounds :
    (tick_hz timeout_ms : ℕ)
    → timeout_ms < wait_forever
    → (timeout_to_ticks tick_hz timeout_ms < wait_forever)
      × ((timeout_ms * tick_hz ≤ timeout_to_ticks tick_hz timeout_ms * 1000)
          ⊎ (timeout_to_ticks tick_hz timeout_ms ≡ wait_forever - 1))
      × (timeout_to_ticks tick_hz timeout_ms * 1000 ≤ timeout_ms * tick_hz + 999)
unfolding timeout_to_ticks
timeout_to_ticks_bounds tick_hz timeout_ms finite = ground arith

-- What is left of a finite budget is the budget less the ticks that have passed, and nothing when
-- they exceed it, also where the tick count wraps round in between, as long as fewer than 2 ^ 32
-- ticks have passed.
pub wait_remaining-elapsed :
    (budget start elapsed : ℕ)
    → budget < wait_forever
    → start < u32_mod
    → elapsed < u32_mod
    → wait_remaining budget start ((start + elapsed) % u32_mod) ≡ budget - elapsed
unfolding wait_remaining
wait_remaining-elapsed budget start elapsed finite word short = ground arith

pub timeout_to_ticks-le :
    (tick_hz timeout_ms : ℕ)
    → timeout_ms ≤ wait_forever
    → timeout_to_ticks tick_hz timeout_ms ≤ wait_forever
unfolding timeout_to_ticks
timeout_to_ticks-le tick_hz timeout_ms word = ground arith

pub wait_remaining-lt :
    (budget start now : ℕ) → budget < wait_forever → wait_remaining budget start now < wait_forever
unfolding wait_remaining
wait_remaining-lt budget start now finite = ground arith

pub wait_remaining-le :
    (budget start now : ℕ) → budget ≤ wait_forever → wait_remaining budget start now ≤ wait_forever
unfolding wait_remaining
wait_remaining-le budget start now word = ground arith

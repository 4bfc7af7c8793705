-- ===== src/Blocking/Tests.antt =====
-- The theorems about timeouts at concrete inputs.
use ahura_rtos.Shared.{◌-◌, ◌*◌, ◌≤◌, ◌<◌, ◌≡◌, ◌⊎◌, ◌+◌, ◌%◌, ◌^◌, arith, u32_mod}
use ahura_rtos.Status.{wait_forever}
use ahura_rtos.Blocking.Defs.{timeout_to_ticks, wait_remaining}
use ahura_rtos.Blocking.Timeouts.{timeout_to_ticks_bounds, wait_remaining-elapsed}

timeout_to_ticks_bounds_example :
    (timeout_to_ticks 128 5 < wait_forever)
    × ((5 * 128 ≤ timeout_to_ticks 128 5 * 1000) ⊎ (timeout_to_ticks 128 5 ≡ wait_forever - 1))
    × (timeout_to_ticks 128 5 * 1000 ≤ 5 * 128 + 999)
timeout_to_ticks_bounds_example = timeout_to_ticks_bounds 128 5 (omega arith)

-- The tick count wraps round after 16 of the 50 ticks.
wait_remaining-elapsed_example :
    wait_remaining 70 (2 ^ 32 - 16) ((2 ^ 32 - 16 + 50) % u32_mod) ≡ 70 - 50
wait_remaining-elapsed_example =
    wait_remaining-elapsed 70 (2 ^ 32 - 16) 50 (omega arith) (omega arith) (omega arith)

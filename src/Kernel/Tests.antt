-- ===== src/Kernel/Tests.antt =====
-- The theorem on the scheduler lock at one sequence of operations.
use ahura_rtos.Shared.{◌≡◌, refl, arith, true, false, [], ◌∷◌}
use ahura_rtos.Task.State.{Cpu, Sched, switch_on}
use ahura_rtos.Task.Tests.{config, busy_system}
use ahura_rtos.Kernel.Defs.{lock, unlock}
use ahura_rtos.Kernel.Lock.{locks, unlocks, saves, run, lock-unlock}

abbrev on_core : Cpu
on_core = record { core = 0; in_isr = false }

abbrev started : Sched
started = record busy_system { kernel_running = true }

-- A nested lock, in which an earlier request for a switch is served.
lock-unlock_example :
    let inside = run config on_core (locks ∷ saves 64 ∷ unlocks ∷ []) (lock on_core started) in
    let t = unlock on_core inside in
    (inside.port.requests ≡ started.port.requests)
    × ((t.port.requests ≡ switch_on 0 ∷ started.port.requests)
        × ((t.port.lock_count 0 ≡ 0) × (t.port.switch_pending 0 ≡ false)))
lock-unlock_example =
    lock-unlock config 0 (locks ∷ saves 64 ∷ unlocks ∷ []) started 0 refl refl refl refl refl
      (omega arith) refl

-- ===== src/Delay/Tests.antt =====
-- The theorem on delays at five milliseconds, of a task that is woken after two and then sleeps on.
use ahura_rtos.Shared.{ℕ, refl, true, [], ◌∷◌, arith}
use ahura_rtos.Task.State.{Sched}
use ahura_rtos.Task.Tests.{config, cpu, busy_system}
use ahura_rtos.Blocking.{World, Pause}
use ahura_rtos.Blocking.Ends.{Outlasts}
use ahura_rtos.Delay.Defs.{Counter, delay_ms}
use ahura_rtos.Delay.Lasts.{Lasted, owed, delay_ms-Lasted}

abbrev ready_system : Sched
ready_system = record busy_system { kernel_running = true }

abbrev at_start : World ℕ
at_start = record { sched = ready_system; now = 0; object = 0 }

abbrev counter : Counter ℕ
counter = record { hz = 16000000; pass = λ n w. w }

abbrev woken : Pause ℕ
woken w = record w { sched = ready_system; now = 2 }

abbrev slept : Pause ℕ
slept w = record w { sched = ready_system; now = 5 }

slept-Outlasts : Outlasts config cpu (owed 1000 5) 0 slept
slept-Outlasts w asleep = (5, (omega arith, (omega arith, omega arith)))

delay_ms-Lasted_example :
    Lasted 0 (owed 1000 5) (delay_ms config cpu counter 1000 5 (woken ∷ slept ∷ []) at_start)
delay_ms-Lasted_example =
    delay_ms-Lasted config cpu counter 1000 5 (woken ∷ []) slept [] at_start (omega arith)
      (omega arith) refl ((λ w u. refl), tt) slept-Outlasts

-- ===== src/Sem/Tests.antt =====
-- The theorems about semaphores at concrete inputs, and a run of the code.
use ahura_rtos.Shared.{◌+◌, [], ◌∷◌, arith}
use ahura_rtos.Task.Tests.{config, cpu, queue, busy_system}
use ahura_rtos.Blocking.{timeout_to_ticks, World, Pause}
use ahura_rtos.Blocking.Ends.{Outlasts, Returns}
use ahura_rtos.Sem.Defs.{Sem, give, take_pass, take}
use ahura_rtos.Sem.Conserves.{start, gives, takes, added, taken, Balance, Run-Balance}
use ahura_rtos.Sem.Ends.{take-Returns}

-- A semaphore that task 1 waits for.
abbrev world : World Sem
world = record {
  sched = busy_system;
  now = 100;
  object = record { count = 1; max_count = 2; waiters = queue };
}

-- A give, and the take of a task that does not wait.
Run-Balance_example :
    Balance world
      (take_pass config cpu 0 0 (give config cpu world).1).1
      (added (give config cpu world).0 + 0)
      (taken (take_pass config cpu 0 0 (give config cpu world).1).0 + 0)
Run-Balance_example =
    Run-Balance config world (record { within = omega arith; word = omega arith })
      (takes cpu 0 0 (gives cpu start))

abbrev emptied : World Sem
emptied = record world { object = record world.object { count = 0 } }

-- The other tasks put back what they find: they run until the caller does.
abbrev undisturbed : Pause Sem
undisturbed w = record w { sched = busy_system; now = w.now + 5 }

abbrev waiting : World Sem
waiting = (take_pass config cpu 40 40 emptied).1

-- Forty milliseconds at a thousand ticks a second pass, and one more wait is over.
abbrev forty : Pause Sem
forty w = record w { now = 140 }

forty-Outlasts : Outlasts config cpu (timeout_to_ticks 1000 40) 100 forty
unfolding timeout_to_ticks
forty-Outlasts w armed = (40, (omega arith, (omega arith, omega arith)))

take-Returns_example : Returns (take config cpu 1000 40 (undisturbed ∷ forty ∷ []) emptied)
take-Returns_example =
    take-Returns config cpu 1000 40 (undisturbed ∷ []) forty [] emptied (omega arith) (omega arith)
      forty-Outlasts

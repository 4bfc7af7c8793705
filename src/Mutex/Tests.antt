-- ===== src/Mutex/Tests.antt =====
-- The theorems about mutexes at concrete inputs.
use ahura_rtos.Shared.{ℕ, refl, arith, [], ◌∷◌, true}
use ahura_rtos.Task.Tests.{config, cpu, busy_system}
use ahura_rtos.Blocking.{timeout_to_ticks, World, Pause}
use ahura_rtos.Blocking.Ends.{Outlasts, Returns}
use ahura_rtos.Mutex.Defs.{lock_pass, lock}
use ahura_rtos.Mutex.Exclusion.{start, locks_pass, granted, Exclusive, Run-Exclusive}
use ahura_rtos.Mutex.Ends.{lock-Returns}

abbrev world : World ℕ
world = record { sched = busy_system; now = 100; object = 3 }

-- The mutex is granted once, and a second try finds it taken.
Run-Exclusive_example :
    let once = lock_pass config cpu 7 0 0 world in
    let twice = lock_pass config cpu 9 0 0 once.1 in
    Exclusive (granted 9 twice.0 (granted 7 once.0 [])) twice.1
Run-Exclusive_example =
    Run-Exclusive config world refl (locks_pass cpu 8 0 0 (locks_pass cpu 6 0 0 start))

-- Another task holds the mutex.
abbrev held : World ℕ
held = record world {
  sched = record busy_system { mutex_locked = λ m. true; mutex_owner_id = λ m. 77 };
}

abbrev forty : Pause ℕ
forty w = record w { now = 140 }

forty-Outlasts : Outlasts config cpu (timeout_to_ticks 1000 40) 100 forty
unfolding timeout_to_ticks
forty-Outlasts w armed = (40, (omega arith, (omega arith, omega arith)))

lock-Returns_example : Returns (lock config cpu 1000 40 (forty ∷ []) held)
lock-Returns_example =
    lock-Returns config cpu 1000 40 [] forty [] held refl (omega arith) (omega arith) forty-Outlasts

-- ===== src/Event/Tests.antt =====
-- The theorems about event groups at concrete inputs.
use ahura_rtos.Shared.{
  ℕ, ◌≡◌, ◌<◌, true, false, [], ◌∷◌, arith, if◌then◌else◌, ltb, ◌==◌, ◌&&◌, count,
}
use Prim.Native.Nat.{bit_and}
use ahura_rtos.Shared.Bits.{digit}
use ahura_rtos.Status.{ok, busy, timeout}
use ahura_rtos.Task.Tests.{config, cpu, queue, busy_system, busy_system-IsConsistent}
use ahura_rtos.Task.Consistent.{IsConsistent, nobody}
use ahura_rtos.Task.Consistent.Matches.{Delivered}
use ahura_rtos.Blocking.{timeout_to_ticks, nonblocking, World, Pause, done, wait}
use ahura_rtos.Blocking.Ends.{Outlasts, Returns}
use ahura_rtos.Event.Defs.{Event, Waiter, set_bits, wait_flags, wait_pass, wait_bits}
use ahura_rtos.Event.Wakes.{wanted, taken, set_bits-Delivered}
use ahura_rtos.Event.Waits.{wait_pass-wanted, wait_bits-Returns}

-- Task 1 waits for the bits 1 and 2 of a group in which bit 1 is set.
abbrev group : Event
group = record { flags = 2; waiters = queue }

abbrev world : World Event
world = record { sched = busy_system; now = 0; object = group }

set_bits-Delivered_example :
    IsConsistent config nobody (set_bits config cpu 4 world).1.sched
    × (Delivered queue
          (λ q.
            ltb 0 (count q (1 ∷ []))
            && wanted 6 (busy_system.wait_data0 q) (busy_system.wait_data1 q))
          (λ q. bit_and 6 (busy_system.wait_data0 q))
          busy_system
          (set_bits config cpu 4 world).1.sched
        × ((i : ℕ)
            → i < 32
            → digit (set_bits config cpu 4 world).1.object.flags i ≡ (
                if taken 6 busy_system.wait_data0 busy_system.wait_data1 (1 ∷ []) i
                then 0
                else digit 6 i)))
set_bits-Delivered_example =
    set_bits-Delivered config cpu 4 world busy_system-IsConsistent (omega arith) (omega arith)
      (λ q. ground arith)

abbrev waiter : World Waiter
waiter = record {
  sched = busy_system;
  now = 0;
  object = record { event = group; matched_bits = 0 };
}

wait_pass-wanted_example :
    (let met = wanted 2 6 (wait_flags false true) in
      let (verdict, w') = wait_pass config cpu 6 false true 0 0 waiter in
      (verdict ≡ (
        if met
        then done ok
        else (if nonblocking cpu 0 busy_system
            then done busy
            else (if 0 == 0 then done timeout else wait))))
      × ((w'.object.matched_bits ≡ bit_and 2 6)
          × ((i : ℕ)
              → i < 32
              → digit w'.object.event.flags i
                ≡ (if met && (true && digit 6 i == 1) then 0 else digit 2 i))))
wait_pass-wanted_example = wait_pass-wanted config cpu 6 false true 0 0 waiter (omega arith)

-- Five milliseconds at a thousand ticks a second pass.
abbrev wait_five : Pause Waiter
wait_five w = record w { now = 5 }

wait_five-Outlasts : Outlasts config cpu (timeout_to_ticks 1000 5) 0 wait_five
unfolding timeout_to_ticks
wait_five-Outlasts w armed = (5, (omega arith, (omega arith, omega arith)))

wait_bits-Returns_example :
    Returns (wait_bits config cpu 1000 6 true false 5 (wait_five ∷ []) waiter)
wait_bits-Returns_example =
    wait_bits-Returns config cpu 6 true false 5 1000 [] wait_five [] waiter (omega arith)
      (omega arith) wait_five-Outlasts

-- ===== src/Sem/Consistent.antt =====
-- The calls of kernel/os_sem.c keep the scheduler's lists consistent, waits included.
use ahura_rtos.Shared.{ℕ, ◌≤◌, List, ltb, leb, ◌==◌, Bool-cases, inl, inr}
use ahura_rtos.Status.{wait_forever}
use ahura_rtos.Task.State.{Config, Cpu}
use ahura_rtos.Task.Consistent.{IsConsistent, nobody}
use ahura_rtos.Task.Consistent.Block.{wait_begin-IsConsistent}
use ahura_rtos.Task.Consistent.Frame.{wait_end-IsConsistent}
use ahura_rtos.Task.Consistent.Wake.{wake_one-IsConsistent}
use ahura_rtos.Blocking.{timeout_to_ticks, nonblocking, World, Pause}
use ahura_rtos.Blocking.Loop.{AllLead, Returned, Settled, IsRunning, PassKeeps, call-Settled}
use ahura_rtos.Blocking.Timeouts.{timeout_to_ticks-le}
use ahura_rtos.Sem.Defs.{Sem, give, take_pass, take}

module _ (k : Config) (c : Cpu) where
  -- os_sem_give keeps the lists consistent.
  pub give-IsConsistent :
      (w : World Sem) → IsConsistent k nobody w.sched → IsConsistent k nobody (give k c w).1.sched
  unfolding give
  give-IsConsistent w h = elim (Bool-cases (leb w.object.max_count w.object.count)) [
    | inl full_up ↦ rw full_up h
    | inr room ↦ rw room (wake_one-IsConsistent k c w.object.waiters w.sched h)
  ]

  pub take_pass-PassKeeps : (timeout_ms : ℕ) → PassKeeps k c (take_pass k c timeout_ms)
  unfolding take_pass
  take_pass-PassKeeps timeout_ms n w small run = elim (Bool-cases (ltb 0 w.object.count)) [
    | inl available ↦ rw available (wait_end-IsConsistent k c w.sched run.consistent)
    | inr none_left ↦ rw none_left (elim (Bool-cases (nonblocking c timeout_ms w.sched)) [
      | inl at_once ↦ rw at_once (wait_end-IsConsistent k c w.sched run.consistent)
      | inr may_wait ↦ rw may_wait (elim (Bool-cases (n == 0)) [
        | inl late ↦ rw late (wait_end-IsConsistent k c w.sched run.consistent)
        | inr early ↦ rw early (
            wait_begin-IsConsistent k c w.sched run.consistent w.object.waiters n small run.running)
      ])
    ])
  ]

  -- os_sem_take of a running task, with a timeout that is a word, leaves the lists consistent when
  -- it returns, whatever its waits bring: provided that what runs in them keeps the lists
  -- consistent and hands over to the task as a running one.
  pub take-Settled :
      (tick_hz timeout_ms : ℕ) (pauses : List (Pause Sem)) (w : World Sem)
      → timeout_ms ≤ wait_forever
      → AllLead (Settled k) (IsRunning k c) pauses
      → IsRunning k c w
      → Returned (λ status. Settled k) (take k c tick_hz timeout_ms pauses w)
  unfolding take
  take-Settled tick_hz timeout_ms pauses w word leads run =
      let budget = timeout_to_ticks tick_hz timeout_ms in
      let small = timeout_to_ticks-le tick_hz timeout_ms word in
      call-Settled k c (take_pass k c timeout_ms) (take_pass-PassKeeps timeout_ms) budget w.now
        small pauses budget w small leads run

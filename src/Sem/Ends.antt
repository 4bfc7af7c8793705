-- ===== src/Sem/Ends.antt =====
-- A take with a finite timeout returns (kernel/os_sem.c).
use ahura_rtos.Shared.{
  ℕ, ◌<◌, refl, List, ◌∷◌, ◌++◌, u32_mod, Bool-cases, inl, inr, ltb, ◌==◌, arith,
}
use ahura_rtos.Status.{wait_forever, ok, empty, timeout}
use ahura_rtos.Task.State.{Config, Cpu}
use ahura_rtos.Blocking.{timeout_to_ticks, nonblocking, World, Pause, try_later}
use ahura_rtos.Blocking.Ends.{
  Ends, Arms, Outlasts, Returns, wait_begin-Timed, try_later-Resumes, try_later-RunsOut,
  wait_loop-Returns,
}
use ahura_rtos.Blocking.Timeouts.{timeout_to_ticks_bounds}
use ahura_rtos.Sem.Defs.{Sem, take_pass, take}

module _ (k : Config) (c : Cpu) where
  take_pass-Ends : (timeout_ms : ℕ) → Ends (take_pass k c timeout_ms)
  unfolding take_pass
  take_pass-Ends timeout_ms w = elim (Bool-cases (ltb 0 w.object.count)) [
    | inl available ↦ (ok, rw available refl)
    | inr none_left ↦ elim (Bool-cases (nonblocking c timeout_ms w.sched)) [
      | inl at_once ↦ (empty, rw (none_left, at_once) refl)
      | inr may_wait ↦ (timeout, rw (none_left, may_wait) refl)
    ]
  ]

  take_pass-Arms : (timeout_ms : ℕ) → Arms k c (take_pass k c timeout_ms)
  unfolding take_pass
  take_pass-Arms timeout_ms n w finite waits = elim (Bool-cases (ltb 0 w.object.count)) [
    | inl available ↦ ground (arith, waits, available)
    | inr none_left ↦ elim (Bool-cases (nonblocking c timeout_ms w.sched)) [
      | inl at_once ↦ ground (arith, waits, none_left, at_once)
      | inr may_wait ↦ elim (Bool-cases (n == 0)) [
        | inl late ↦ ground (arith, waits, none_left, may_wait, late)
        | inr early ↦
            rw (none_left, may_wait, early) (wait_begin-Timed k c w.object.waiters n w.sched finite)
      ]
    ]
  ]

  -- os_sem_take with a finite timeout returns, with or without a token, provided that one of its
  -- waits lasts until its ticks are used up, if it puts the task among the sleepers. Of a wait
  -- without a deadline nothing is assumed, and in the waits others may do anything to the
  -- semaphore.
  pub take-Returns :
      (tick_hz timeout_ms : ℕ) (early : List (Pause Sem)) (late : Pause Sem)
      (rest : List (Pause Sem)) (w : World Sem)
      → timeout_ms < wait_forever
      → w.now < u32_mod
      → Outlasts k c (timeout_to_ticks tick_hz timeout_ms) w.now late
      → Returns (take k c tick_hz timeout_ms (early ++ late ∷ rest) w)
  unfolding take
  take-Returns tick_hz timeout_ms early late rest w finite word long =
      let budget = timeout_to_ticks tick_hz timeout_ms in
      let small = (timeout_to_ticks_bounds tick_hz timeout_ms finite).0 in
      wait_loop-Returns (take_pass k c timeout_ms) (try_later k c budget w.now)
        (take_pass-Ends timeout_ms) budget w.now (try_later-RunsOut k c budget w.now small word) k c
        (take_pass-Arms timeout_ms) (try_later-Resumes k c budget w.now small) early late rest
        budget w small long

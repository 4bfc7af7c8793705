-- ===== src/Mutex/Ends.antt =====
-- A lock with a finite timeout returns (kernel/os_mutex.c).
use ahura_rtos.Shared.{
  ℕ, ◌<◌, ◌≡◌, refl, some, false, not, ◌&&◌, ◌||◌, List, ◌∷◌, ◌++◌, arith, ◌==◌, u32_mod,
  Bool-cases, inl, inr,
}
use ahura_rtos.Status.{wait_forever, ok, busy, timeout}
use ahura_rtos.Task.State.{Config, Cpu}
use ahura_rtos.Task.Wait.{wait_signaled}
use ahura_rtos.Task.Owner.{priority_inherit, blocked_on_set}
use ahura_rtos.Task.Query.{current_id_get}
use ahura_rtos.Blocking.{timeout_to_ticks, nonblocking, World, Pause}
use ahura_rtos.Blocking.Ends.{
  Ends, Arms, Resumes, RunsOut, wait_begin-Timed, Outlasts, Returns, wait_loop-Returns,
}
use ahura_rtos.Blocking.Timeouts.{
  timeout_to_ticks_bounds, wait_remaining-elapsed, wait_remaining-lt,
}
use ahura_rtos.Mutex.Defs.{queue_up, lock_pass, lock_resume, lock}

module _ (k : Config) (c : Cpu) where
  lock_pass-Ends : (self_id timeout_ms : ℕ) → Ends (lock_pass k c self_id timeout_ms)
  unfolding lock_pass
  lock_pass-Ends self_id timeout_ms w = elim (Bool-cases (w.sched.mutex_locked w.object)) [
    | inr free ↦ (ok, rw (lock_pass, free) refl)
    | inl locked ↦
        elim (Bool-cases (
          (not (self_id == 0) && w.sched.mutex_owner_id w.object == self_id)
          || nonblocking c timeout_ms w.sched)) [
            | inl at_once ↦ (busy, rw (lock_pass, locked, at_once) refl)
            | inr may_wait ↦ (timeout, rw (lock_pass, locked, may_wait) refl)
          ]
  ]

  lock_pass-Arms : (self_id timeout_ms : ℕ) → Arms k c (lock_pass k c self_id timeout_ms)
  unfolding lock_pass queue_up
  lock_pass-Arms self_id timeout_ms n w finite waits =
      elim (Bool-cases (w.sched.mutex_locked w.object)) [
        | inr free ↦ ground (arith, waits, free)
        | inl locked ↦
            let busy_now =
              (not (self_id == 0) && w.sched.mutex_owner_id w.object == self_id)
              || nonblocking c timeout_ms w.sched in
            elim (Bool-cases busy_now) [
              | inl at_once ↦ ground (arith, waits, locked, at_once)
              | inr may_wait ↦ elim (Bool-cases (n == 0)) [
                | inl late ↦ ground (arith, waits, locked, may_wait, late)
                | inr early ↦
                    let lent = priority_inherit k c (w.sched.mutex_owner_id w.object) w.sched in
                    let marked =
                      blocked_on_set k c (some w.object) (timeout_ms == wait_forever) lent in
                    rw (locked, may_wait, early)
                      (wait_begin-Timed k c (marked.mutex_waiters w.object) n marked finite)
              ]
            ]
      ]

  lock_resume-Resumes :
      (budget start : ℕ) → budget < wait_forever → Resumes (lock_resume k c budget start)
  unfolding lock_resume
  lock_resume-Resumes budget start finite w = elim (Bool-cases (wait_signaled k c w.sched)) [
    | inl signaled ↦ rw signaled (wait_remaining-lt budget start w.now finite)
    | inr silent ↦ rw silent (omega arith)
  ]

  lock_resume-RunsOut :
      (budget start : ℕ)
      → budget < wait_forever
      → start < u32_mod
      → RunsOut budget start (lock_resume k c budget start)
  unfolding lock_resume
  lock_resume-RunsOut budget start finite word w elapsed late small now =
      elim (Bool-cases (wait_signaled k c w.sched)) [
        | inl signaled ↦
            rw (signaled, now, wait_remaining-elapsed budget start elapsed finite word small)
              (omega (arith, late))
        | inr silent ↦ rw silent refl
      ]

  -- os_mutex_lock of a task with a finite timeout returns, with the mutex or without it, provided
  -- that one of its waits lasts until its ticks are used up, if it puts the task among the
  -- sleepers. Of a wait without a deadline nothing is assumed, and in the waits the owner and the
  -- others may do anything.
  pub lock-Returns :
      (tick_hz timeout_ms : ℕ) (early : List (Pause ℕ)) (late : Pause ℕ) (rest : List (Pause ℕ))
      (w : World ℕ)
      → c.in_isr ≡ false
      → timeout_ms < wait_forever
      → w.now < u32_mod
      → Outlasts k c (timeout_to_ticks tick_hz timeout_ms) w.now late
      → Returns (lock k c tick_hz timeout_ms (early ++ late ∷ rest) w)
  unfolding lock current_id_get
  lock-Returns tick_hz timeout_ms early late rest w from_task finite word long =
      let budget = timeout_to_ticks tick_hz timeout_ms in
      let small = (timeout_to_ticks_bounds tick_hz timeout_ms finite).0 in
      let self_id = current_id_get k c w.sched in
      simp from_task (
        wait_loop-Returns (lock_pass k c self_id timeout_ms) (lock_resume k c budget w.now)
          (lock_pass-Ends self_id timeout_ms) budget w.now
          (lock_resume-RunsOut budget w.now small word) k c (lock_pass-Arms self_id timeout_ms)
          (lock_resume-Resumes budget w.now small) early late rest budget w small long)

-- ===== src/Queue/Ends.antt =====
-- A send and a receive with a finite timeout return (kernel/os_queue.c).
use ahura_rtos.Shared.{
  true, ℕ, ◌<◌, refl, List, ◌∷◌, ◌++◌, arith, u32_mod, Bool-cases, inl, inr, ltb, ◌&&◌, ◌||◌, not,
  ◌==◌,
}
use ahura_rtos.Status.{wait_forever, ok, empty, full, timeout}
use ahura_rtos.Task.State.{Config, Cpu}
use ahura_rtos.Task.Wait.{wait_signaled}
use ahura_rtos.Blocking.{timeout_to_ticks, nonblocking, World, Pause, try_later}
use ahura_rtos.Blocking.Ends.{
  Ends, Arms, Resumes, RunsOut, Outlasts, Returns, wait_begin-Timed, try_later-Resumes,
  try_later-RunsOut, wait_loop-Returns,
}
use ahura_rtos.Blocking.Timeouts.{
  timeout_to_ticks_bounds, wait_remaining-elapsed, wait_remaining-lt,
}
use ahura_rtos.Queue.Defs.{
  Queue, Receiver, is_overwrite, send_pass, send_resume, send, receive_pass, receive,
}

module _ (k : Config) (c : Cpu) where
  receive_pass-Ends : (timeout_ms : ℕ) → Ends (receive_pass k c timeout_ms)
  unfolding receive_pass
  receive_pass-Ends timeout_ms w = elim (Bool-cases (ltb 0 w.object.queue.count)) [
    | inl available ↦ (ok, rw available refl)
    | inr nothing ↦ elim (Bool-cases (nonblocking c timeout_ms w.sched)) [
      | inl at_once ↦ (empty, rw (nothing, at_once) refl)
      | inr may_wait ↦ (timeout, rw (nothing, may_wait) refl)
    ]
  ]

  send_pass-Ends : (item : List ℕ) (timeout_ms : ℕ) → Ends (send_pass k c item timeout_ms)
  unfolding send_pass
  send_pass-Ends item timeout_ms w =
      let q = w.object in
      let at_once = nonblocking c timeout_ms w.sched in
      elim (Bool-cases (ltb q.count q.capacity)) [
        | inl room ↦ (ok, rw room refl)
        | inr none_left ↦
            elim (Bool-cases
              (is_overwrite q.mode && (not (q.capacity == 0) && (at_once || true)))) [
                | inl over ↦ (ok, rw (none_left, over) refl)
                | inr kept ↦ elim (Bool-cases at_once) [
                  | inl now ↦ (full, rw (none_left, kept, now) refl)
                  | inr later ↦ (timeout, rw (none_left, kept, later) refl)
                ]
              ]
      ]

  receive_pass-Arms : (timeout_ms : ℕ) → Arms k c (receive_pass k c timeout_ms)
  unfolding receive_pass
  receive_pass-Arms timeout_ms n w finite waits = elim (Bool-cases (ltb 0 w.object.queue.count)) [
    | inl available ↦ ground (arith, waits, available)
    | inr nothing ↦ elim (Bool-cases (nonblocking c timeout_ms w.sched)) [
      | inl at_once ↦ ground (arith, waits, nothing, at_once)
      | inr may_wait ↦ elim (Bool-cases (n == 0)) [
        | inl late ↦ ground (arith, waits, nothing, may_wait, late)
        | inr early ↦
            rw (nothing, may_wait, early)
              (wait_begin-Timed k c w.object.queue.receive_waiters n w.sched finite)
      ]
    ]
  ]

  send_pass-Arms : (item : List ℕ) (timeout_ms : ℕ) → Arms k c (send_pass k c item timeout_ms)
  unfolding send_pass
  send_pass-Arms item timeout_ms n w finite waits =
      let q = w.object in
      let now = nonblocking c timeout_ms w.sched in
      elim (Bool-cases (ltb q.count q.capacity)) [
        | inl room ↦ ground (arith, waits, room)
        | inr none_left ↦
            elim (Bool-cases (is_overwrite q.mode && (not (q.capacity == 0) && (now || n == 0)))) [
              | inl over ↦ ground (arith, waits, none_left, over)
              | inr kept ↦ elim (Bool-cases now) [
                | inl at_once ↦ ground (arith, waits, none_left, kept, at_once)
                | inr may_wait ↦ elim (Bool-cases (n == 0)) [
                  | inl late ↦ ground (arith, waits, none_left, kept, may_wait, late)
                  | inr early ↦
                      rw (none_left, kept, may_wait, early)
                        (wait_begin-Timed k c q.send_waiters n w.sched finite)
                ]
              ]
            ]
      ]

  send_resume-Resumes :
      (budget start : ℕ) → budget < wait_forever → Resumes (send_resume k c budget start)
  unfolding send_resume
  send_resume-Resumes budget start finite w = elim (Bool-cases (wait_signaled k c w.sched)) [
    | inl signaled ↦ rw signaled (wait_remaining-lt budget start w.now finite)
    | inr silent ↦ rw silent (omega arith)
  ]

  send_resume-RunsOut :
      (budget start : ℕ)
      → budget < wait_forever
      → start < u32_mod
      → RunsOut budget start (send_resume k c budget start)
  unfolding send_resume
  send_resume-RunsOut budget start finite word w elapsed late small now =
      elim (Bool-cases (wait_signaled k c w.sched)) [
        | inl signaled ↦
            rw (signaled, now, wait_remaining-elapsed budget start elapsed finite word small)
              (omega (arith, late))
        | inr silent ↦ rw silent refl
      ]

  -- os_queue_receive with a finite timeout returns, with or without an item, provided that one of
  -- its waits lasts until its ticks are used up, if it puts the task among the sleepers. Of a wait
  -- without a deadline nothing is assumed.
  pub receive-Returns :
      (tick_hz timeout_ms : ℕ) (early : List (Pause Receiver)) (late : Pause Receiver)
      (rest : List (Pause Receiver)) (w : World Receiver)
      → timeout_ms < wait_forever
      → w.now < u32_mod
      → Outlasts k c (timeout_to_ticks tick_hz timeout_ms) w.now late
      → Returns (receive k c tick_hz timeout_ms (early ++ late ∷ rest) w)
  unfolding receive
  receive-Returns tick_hz timeout_ms early late rest w finite word long =
      let budget = timeout_to_ticks tick_hz timeout_ms in
      let small = (timeout_to_ticks_bounds tick_hz timeout_ms finite).0 in
      wait_loop-Returns (receive_pass k c timeout_ms) (try_later k c budget w.now)
        (receive_pass-Ends timeout_ms) budget w.now (try_later-RunsOut k c budget w.now small word)
        k c (receive_pass-Arms timeout_ms) (try_later-Resumes k c budget w.now small) early late
        rest budget w small long

  -- os_queue_send with a finite timeout returns, whether it found room or not, provided that one
  -- of its waits lasts until its ticks are used up, if it puts the task among the sleepers. Of a
  -- wait without a deadline nothing is assumed.
  pub send-Returns :
      (tick_hz : ℕ) (item : List ℕ) (timeout_ms : ℕ) (early : List (Pause Queue))
      (late : Pause Queue) (rest : List (Pause Queue)) (w : World Queue)
      → timeout_ms < wait_forever
      → w.now < u32_mod
      → Outlasts k c (timeout_to_ticks tick_hz timeout_ms) w.now late
      → Returns (send k c tick_hz item timeout_ms (early ++ late ∷ rest) w)
  unfolding send
  send-Returns tick_hz item timeout_ms early late rest w finite word long =
      let budget = timeout_to_ticks tick_hz timeout_ms in
      let small = (timeout_to_ticks_bounds tick_hz timeout_ms finite).0 in
      wait_loop-Returns (send_pass k c item timeout_ms) (send_resume k c budget w.now)
        (send_pass-Ends item timeout_ms) budget w.now (send_resume-RunsOut budget w.now small word)
        k c (send_pass-Arms item timeout_ms) (send_resume-Resumes budget w.now small) early late
        rest budget w small long

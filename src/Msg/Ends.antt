-- ===== src/Msg/Ends.antt =====
-- A send and a receive of a message with a finite timeout return (kernel/os_msg.c).
use ahura_rtos.Shared.{
  arith, ℕ, ◌<◌, refl, List, ◌∷◌, ◌++◌, u32_mod, Bool-cases, inl, inr, ltb, leb, length, add32,
  sub32, not, ◌&&◌, ◌==◌,
}
use ahura_rtos.Status.{wait_forever, ok, invalid_arg, empty, full, timeout}
use ahura_rtos.Task.State.{Config, Cpu}
use ahura_rtos.Task.Wait.{wait_data_set}
use ahura_rtos.Blocking.{timeout_to_ticks, nonblocking, World, Pause, try_later}
use ahura_rtos.Blocking.Ends.{
  Ends, Arms, Outlasts, Returns, wait_begin-Timed, try_later-Resumes, try_later-RunsOut,
  wait_loop-Returns,
}
use ahura_rtos.Blocking.Timeouts.{timeout_to_ticks_bounds}
use ahura_rtos.Msg.Defs.{
  Msg, Receiver, header_bytes, length_max, send_pass, send, taken, receive_pass, receive,
}

module _ (k : Config) (c : Cpu) where
  receive_pass-Ends : (data_size timeout_ms : ℕ) → Ends (receive_pass k c data_size timeout_ms)
  unfolding receive_pass
  receive_pass-Ends data_size timeout_ms w = elim (Bool-cases (ltb 0 w.object.msg.count)) [
    | inl available ↦ ((taken k c data_size w).0, rw available refl)
    | inr nothing ↦ elim (Bool-cases (nonblocking c timeout_ms w.sched)) [
      | inl at_once ↦ (empty, rw (nothing, at_once) refl)
      | inr may_wait ↦ (timeout, rw (nothing, may_wait) refl)
    ]
  ]

  send_pass-Ends : (message : List ℕ) (timeout_ms : ℕ) → Ends (send_pass k c message timeout_ms)
  unfolding send_pass
  send_pass-Ends message timeout_ms w =
      let m = w.object in
      let needed = add32 (length message) header_bytes in
      elim (Bool-cases (ltb m.capacity needed)) [
        | inl big ↦ (invalid_arg, rw big refl)
        | inr small ↦ elim (Bool-cases (leb needed (sub32 m.capacity m.used))) [
          | inl fits ↦ (ok, rw (small, fits) refl)
          | inr tight ↦ elim (Bool-cases (nonblocking c timeout_ms w.sched)) [
            | inl now ↦ (full, rw (small, tight, now) refl)
            | inr later ↦ (timeout, rw (small, tight, later) refl)
          ]
        ]
      ]

  receive_pass-Arms : (data_size timeout_ms : ℕ) → Arms k c (receive_pass k c data_size timeout_ms)
  unfolding receive_pass
  receive_pass-Arms data_size timeout_ms n w finite waits =
      elim (Bool-cases (ltb 0 w.object.msg.count)) [
        | inl available ↦ ground (arith, waits, available)
        | inr nothing ↦ elim (Bool-cases (nonblocking c timeout_ms w.sched)) [
          | inl at_once ↦ ground (arith, waits, nothing, at_once)
          | inr may_wait ↦ elim (Bool-cases (n == 0)) [
            | inl late ↦ ground (arith, waits, nothing, may_wait, late)
            | inr early ↦
                rw (nothing, may_wait, early)
                  (wait_begin-Timed k c w.object.msg.receive_waiters n w.sched finite)
          ]
        ]
      ]

  send_pass-Arms : (message : List ℕ) (timeout_ms : ℕ) → Arms k c (send_pass k c message timeout_ms)
  unfolding send_pass
  send_pass-Arms message timeout_ms n w finite waits =
      let m = w.object in
      let needed = add32 (length message) header_bytes in
      elim (Bool-cases (ltb m.capacity needed)) [
        | inl big ↦ ground (arith, waits, big)
        | inr small ↦ elim (Bool-cases (leb needed (sub32 m.capacity m.used))) [
          | inl fits ↦ ground (arith, waits, small, fits)
          | inr tight ↦ elim (Bool-cases (nonblocking c timeout_ms w.sched)) [
            | inl at_once ↦ ground (arith, waits, small, tight, at_once)
            | inr may_wait ↦ elim (Bool-cases (n == 0)) [
              | inl late ↦ ground (arith, waits, small, tight, may_wait, late)
              | inr early ↦
                  rw (small, tight, may_wait, early)
                    (wait_begin-Timed k c m.send_waiters n (wait_data_set k c needed 0 w.sched)
                      finite)
            ]
          ]
        ]
      ]

  -- os_msg_receive with a finite timeout returns, with or without a message, provided that one of
  -- its waits lasts until its ticks are used up, if it puts the task among the sleepers. Of a wait
  -- without a deadline nothing is assumed.
  pub receive_msg-Returns :
      (tick_hz data_size timeout_ms : ℕ) (early : List (Pause Receiver)) (late : Pause Receiver)
      (rest : List (Pause Receiver)) (w : World Receiver)
      → timeout_ms < wait_forever
      → w.now < u32_mod
      → Outlasts k c (timeout_to_ticks tick_hz timeout_ms) w.now late
      → Returns (receive k c tick_hz data_size timeout_ms (early ++ late ∷ rest) w)
  unfolding receive
  receive_msg-Returns tick_hz data_size timeout_ms early late rest w finite word long =
      let budget = timeout_to_ticks tick_hz timeout_ms in
      let small = (timeout_to_ticks_bounds tick_hz timeout_ms finite).0 in
      wait_loop-Returns (receive_pass k c data_size timeout_ms) (try_later k c budget w.now)
        (receive_pass-Ends data_size timeout_ms) budget w.now
        (try_later-RunsOut k c budget w.now small word) k c (receive_pass-Arms data_size timeout_ms)
        (try_later-Resumes k c budget w.now small) early late rest budget w small long

  -- os_msg_send with a finite timeout returns, whether it found room or not, provided that one of
  -- its waits lasts until its ticks are used up, if it puts the task among the sleepers. Of a wait
  -- without a deadline nothing is assumed.
  pub send_msg-Returns :
      (tick_hz : ℕ) (message : List ℕ) (timeout_ms : ℕ) (early : List (Pause Msg))
      (late : Pause Msg) (rest : List (Pause Msg)) (w : World Msg)
      → timeout_ms < wait_forever
      → w.now < u32_mod
      → Outlasts k c (timeout_to_ticks tick_hz timeout_ms) w.now late
      → Returns (send k c tick_hz message timeout_ms (early ++ late ∷ rest) w)
  unfolding send
  send_msg-Returns tick_hz message timeout_ms early late rest w finite word long =
      let budget = timeout_to_ticks tick_hz timeout_ms in
      let small = (timeout_to_ticks_bounds tick_hz timeout_ms finite).0 in
      elim (Bool-cases (not (length message == 0) && leb (length message) length_max)) [
        | inl legal ↦ rw legal (
            wait_loop-Returns (send_pass k c message timeout_ms) (try_later k c budget w.now)
              (send_pass-Ends message timeout_ms) budget w.now
              (try_later-RunsOut k c budget w.now small word) k c
              (send_pass-Arms message timeout_ms) (try_later-Resumes k c budget w.now small) early
              late rest budget w small long)
        | inr illegal ↦ rw illegal (invalid_arg, (w, refl))
      ]

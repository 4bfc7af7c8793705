-- ===== src/Msg/Fifo.antt =====
-- The calls of kernel/os_msg.c treat the buffer as a bounded queue of messages, first in first out.
use ahura_rtos.Shared.{
  ℕ, ◌+◌, ◌-◌, ◌≤◌, ◌≡◌, refl, List, [], ◌∷◌, ◌++◌, arith, length, sub32, Bool, Bool-cases, true,
  false, inl, inr, if◌then◌else◌, ltb, leb, ◌==◌, write_bytes,
}
use ahura_rtos.Status.{ok, invalid_arg, full, empty, timeout}
use ahura_rtos.Task.State.{Config, Cpu}
use ahura_rtos.Blocking.{World, Verdict, done, wait, nonblocking}
use ahura_rtos.Msg.Defs.{Msg, Receiver, length_max, send_pass, taken, receive_pass}
use ahura_rtos.Msg.Stream.{Holds, size}
use ahura_rtos.Msg.Messages.{needed_lem, put-Holds, get-Holds, length_peek-Holds}

-- What a call does that can neither go on nor fail: `at_once` says that its caller may not wait.
abbrev pub otherwise : Bool → ℕ → Verdict → Verdict
otherwise at_once remaining refused =
    if at_once then refused else (if remaining == 0 then done timeout else wait)

-- A bounded queue of messages that takes two bytes more for each than its length.
module _ (at_once : Bool) (remaining : ℕ) where
  unfoldable pub bounded_send : ℕ → List ℕ → List (List ℕ) → Verdict × List (List ℕ)
  bounded_send capacity message l =
      if ltb capacity (length message + 2)
      then (done invalid_arg, l)
      else (if leb (length message + 2) (capacity - size l)
          then (done ok, l ++ message ∷ [])
          else (otherwise at_once remaining (done full), l))

  -- The caller has memory for `room` bytes at `to`; a message that is longer stays, and the caller
  -- learns its length.
  unfoldable pub bounded_receive :
      ℕ → (ℕ → ℕ) → ℕ → List (List ℕ) → (Verdict × (ℕ → ℕ) × ℕ) × List (List ℕ)
  bounded_receive room to old [] = ((otherwise at_once remaining (done empty), to, old), [])
  bounded_receive room to old (message ∷ l) =
      if ltb room (length message)
      then ((done invalid_arg, to, length message), message ∷ l)
      else ((done ok, write_bytes to 0 message, length message), l)

module _ (k : Config) (c : Cpu) (timeout_ms remaining : ℕ) where
  module _ (w : World Msg) (l : List (List ℕ)) (h : Holds w.object l) where
    -- For a buffer that holds some messages, and a message of at most OS_MSG_LENGTH_MAX bytes: a
    -- critical section of os_msg_send does to the messages what a bounded first-in-first-out queue
    -- does, with the same verdict.
    pub send_pass-bounded_send :
        (message : List ℕ)
        → length message ≤ length_max
        → (let (verdict, w') = send_pass k c message timeout_ms remaining w in
            let (expected, l') =
              bounded_send
                (nonblocking c timeout_ms w.sched)
                remaining
                w.object.capacity
                message
                l in
            (verdict ≡ expected) × Holds w'.object l')
    unfolding send_pass bounded_send
    send_pass-bounded_send message short =
        let m = w.object in
        let e = needed_lem (length message) short in
        let room : sub32 m.capacity m.used ≡ m.capacity - size l =
          omega (arith, h.word, h.few, h.sized) in
        rw (e, room)
          (elim (Bool-cases (ltb m.capacity (length message + 2))) [
            | inl big ↦ rw big (refl, h)
            | inr small ↦ elim (Bool-cases (leb (length message + 2) (m.capacity - size l))) [
              | inl fits ↦
                  rw (small, fits)
                    (refl, put-Holds m l message h short (ground (arith, h.sized, h.few)))
              | inr tight ↦ elim (Bool-cases (nonblocking c timeout_ms w.sched)) [
                | inl now ↦ rw (small, tight, now) (refl, h)
                | inr later ↦ elim (Bool-cases (remaining == 0)) [
                  | inl late ↦ rw (small, tight, later, late) (refl, h)
                  | inr early ↦ rw (small, tight, later, early) (refl, h)
                ]
              ]
            ]
          ])

  module _ (data_size : ℕ) (w : World Receiver) where
    -- For a buffer that holds some messages: a critical section of os_msg_receive does to them, to
    -- the caller's memory and to its length_out what a first-in-first-out queue does, with the same
    -- verdict.
    pub receive_pass-bounded_receive :
        (l : List (List ℕ))
        → Holds w.object.msg l
        → (let (verdict, w') = receive_pass k c data_size timeout_ms remaining w in
            let (expected, l') =
              bounded_receive
                (nonblocking c timeout_ms w.sched)
                remaining
                data_size
                w.object.destination
                w.object.length_out
                l in
            ((verdict, w'.object.destination, w'.object.length_out) ≡ expected)
            × Holds w'.object.msg l')
    unfolding receive_pass bounded_receive taken
    receive_pass-bounded_receive [] h =
        let nothing : ltb 0 w.object.msg.count ≡ false = ground (arith, h.counted) in
        elim (Bool-cases (nonblocking c timeout_ms w.sched)) [
          | inl now ↦ rw (nothing, now) (refl, h)
          | inr later ↦ elim (Bool-cases (remaining == 0)) [
            | inl late ↦ rw (nothing, later, late) (refl, h)
            | inr early ↦ rw (nothing, later, early) (refl, h)
          ]
        ]
    receive_pass-bounded_receive (message ∷ l) h =
        let m = w.object.msg in
        let there : ltb 0 m.count ≡ true = ground (arith, h.counted) in
        let n = length_peek-Holds m l message h in
        let (out, left) = get-Holds m l message h in
        elim (Bool-cases (ltb data_size (length message))) [
          | inl long ↦ rw (there, n, long) (refl, h)
          | inr fits ↦ rw (there, n, fits, out) (refl, left)
        ]

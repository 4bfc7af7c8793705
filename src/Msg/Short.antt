-- ===== src/Msg/Short.antt =====
-- What a caller of kernel/os_msg.c can rely on: the queries, an empty buffer at the start, and a
-- receiver that comes back with enough memory.
use ahura_rtos.Shared.{
  ℕ, ◌-◌, ◌≤◌, ◌<◌, ◌≡◌, refl, ap, ◌∙◌, List, [], ◌∷◌, arith, length, true, false, ltb, write_bytes,
  read_bytes, read_bytes-write_bytes,
}
use ahura_rtos.Status.{ok, invalid_arg}
use ahura_rtos.Task.State.{Config, Cpu}
use ahura_rtos.Blocking.{World, done}
use ahura_rtos.Msg.Defs.{Msg, Receiver, receive_pass, count_get, free_get, peek_size}
use ahura_rtos.Msg.Stream.{Holds, size}
use ahura_rtos.Msg.Messages.{length_peek-Holds}
use ahura_rtos.Msg.Fifo.{bounded_receive, receive_pass-bounded_receive}

-- The length of the first message, or 0 if there is none.
abbrev pub first_length : List (List ℕ) → ℕ
first_length [] = 0
first_length (message ∷ l) = length message

-- For a buffer that holds some messages: os_msg_count_get is their number, os_msg_free_get the
-- capacity less their lengths and two bytes for each, os_msg_peek_size the length of the oldest, or
-- 0 without one.
pub queries-Holds :
    (m : Msg) (l : List (List ℕ))
    → Holds m l
    → (count_get m ≡ length l)
      × ((free_get m ≡ m.capacity - size l) × (peek_size m ≡ first_length l))
unfolding count_get free_get peek_size
queries-Holds m l h = (h.counted, (omega (arith, h.sized, h.few, h.word), peeked l h))
  where
    peeked : (l : List (List ℕ)) → Holds m l → peek_size m ≡ first_length l
    peeked [] h =
        let e : ltb 0 m.count ≡ false = ground (arith, h.counted) in rw (peek_size, e) refl
    peeked (message ∷ l) h =
        let e : ltb 0 m.count ≡ true = ground (arith, h.counted) in
        rw (peek_size, e) (length_peek-Holds m l message h)

module _ (k : Config) (c : Cpu) (timeout_ms remaining : ℕ) where
  module _ (w : World Receiver) (message : List ℕ) (l : List (List ℕ))
      (h : Holds w.object.msg (message ∷ l)) (data_size : ℕ) where
    too_long :
        data_size < length message
        → (let (verdict, w') = receive_pass k c data_size timeout_ms remaining w in
            (verdict ≡ done invalid_arg)
            × ((w'.object.length_out ≡ length message) × Holds w'.object.msg (message ∷ l)))
    unfolding bounded_receive
    too_long short =
        let long : ltb data_size (length message) ≡ true = ground (arith, short) in
        let (e, kept) =
          rw long at
            (receive_pass-bounded_receive k c timeout_ms remaining data_size w (message ∷ l) h) in
        (ap (λ t. t.0) e, (ap (λ t. t.2) e, kept))

    long_enough :
        length message ≤ data_size
        → (let (verdict, w') = receive_pass k c data_size timeout_ms remaining w in
            (verdict ≡ done ok)
            × ((w'.object.destination ≡ write_bytes w.object.destination 0 message)
                × Holds w'.object.msg l))
    unfolding bounded_receive
    long_enough enough =
        let fits : ltb data_size (length message) ≡ false = ground (arith, enough) in
        let (e, left) =
          rw fits at
            (receive_pass-bounded_receive k c timeout_ms remaining data_size w (message ∷ l) h) in
        (ap (λ t. t.0) e, (ap (λ t. t.1) e, left))

  -- For a buffer whose oldest message is longer than the caller's memory: a critical section of
  -- os_msg_receive answers OS_ERR_INVALID_ARG, tells the message's length and keeps it, and a
  -- second one, for a caller with memory for that length, delivers it.
  pub receive_pass-retry :
      (w : World Receiver) (data_size : ℕ) (message : List ℕ) (l : List (List ℕ))
      → Holds w.object.msg (message ∷ l)
      → data_size < length message
      → (let (verdict, w') = receive_pass k c data_size timeout_ms remaining w in
          let (again, w'') = receive_pass k c w'.object.length_out timeout_ms remaining w' in
          (verdict ≡ done invalid_arg)
          × (Holds w'.object.msg (message ∷ l)
              × ((again ≡ done ok)
                  × ((read_bytes w''.object.destination 0 (length message) ≡ message)
                      × Holds w''.object.msg l))))
  receive_pass-retry w data_size message l h short =
      let (first, (told, kept)) = too_long w message l h data_size short in
      let w' = (receive_pass k c data_size timeout_ms remaining w).1 in
      let (again, (written, left)) =
        long_enough w' message l kept w'.object.length_out (omega (arith, told)) in
      (
        first,
        (
          kept,
          (
            again,
            (
              ap (λ d. read_bytes d 0 (length message)) written
                  ∙ read_bytes-write_bytes w'.object.destination 0 message,
              left,
            ),
          ),
        ),
      )

-- ===== src/Msg/Tests.antt =====
-- The theorems about message buffers at concrete inputs.
use ahura_rtos.Shared.{
  ℕ, ◌≡◌, refl, if◌then◌else◌, ◌==◌, false, some, List, [], ◌∷◌, arith, read_bytes,
}
use ahura_rtos.Status.{ok, invalid_arg}
use ahura_rtos.Task.Tests.{config, cpu, queue, busy_system}
use ahura_rtos.Blocking.{World, nonblocking, done}
use ahura_rtos.Msg.Defs.{Msg, Receiver, send_pass, receive_pass, count_get, free_get, peek_size}
use ahura_rtos.Msg.Stream.{Holds}
use ahura_rtos.Msg.Fifo.{
  bounded_send, bounded_receive, send_pass-bounded_send, receive_pass-bounded_receive,
}
use ahura_rtos.Msg.Short.{queries-Holds, receive_pass-retry}

-- Eight bytes, with a message of three from offset 6 on, round the end.
abbrev ring_bytes : ℕ → ℕ
ring_bytes i =
    if i == 0 then 7 else (if i == 1 then 8 else (if i == 2 then 9 else (if i == 6 then 3 else 0)))

abbrev ring : Msg
ring = record {
  buffer = some 4096;
  bytes = ring_bytes;
  capacity = 8;
  head = 6;
  tail = 3;
  used = 5;
  count = 1;
  send_waiters = 8;
  receive_waiters = queue;
  buffer_owned = false;
}

abbrev stored : List (List ℕ)
stored = (7 ∷ 8 ∷ 9 ∷ []) ∷ []

ring-Holds : Holds ring stored
ring-Holds = record {
  word = omega arith;
  inside = omega arith;
  behind = refl;
  few = omega arith;
  lengths = (omega arith, tt);
  sized = refl;
  counted = refl;
  bytes = refl;
}

abbrev sender : World Msg
sender = record { sched = busy_system; now = 0; object = ring }

abbrev receiver : World Receiver
receiver = record {
  sched = busy_system;
  now = 0;
  object = record { msg = ring; destination = λ i. 0; length_out = 0 };
}

send_pass-bounded_send_example :
    (let (verdict, w') = send_pass config cpu (5 ∷ []) 0 0 sender in
      let (expected, l') = bounded_send (nonblocking cpu 0 busy_system) 0 8 (5 ∷ []) stored in
      (verdict ≡ expected) × Holds w'.object l')
send_pass-bounded_send_example =
    send_pass-bounded_send config cpu 0 0 sender stored ring-Holds (5 ∷ []) (omega arith)

receive_pass-bounded_receive_example :
    (let (verdict, w') = receive_pass config cpu 4 0 0 receiver in
      let (expected, l') = bounded_receive (nonblocking cpu 0 busy_system) 0 4 (λ i. 0) 0 stored in
      ((verdict, w'.object.destination, w'.object.length_out) ≡ expected) × Holds w'.object.msg l')
receive_pass-bounded_receive_example =
    receive_pass-bounded_receive config cpu 0 0 4 receiver stored ring-Holds

receive_pass-retry_example :
    (let (verdict, w') = receive_pass config cpu 2 0 0 receiver in
      let (again, w'') = receive_pass config cpu w'.object.length_out 0 0 w' in
      (verdict ≡ done invalid_arg)
      × (Holds w'.object.msg stored
          × ((again ≡ done ok)
              × ((read_bytes w''.object.destination 0 3 ≡ 7 ∷ 8 ∷ 9 ∷ [])
                  × Holds w''.object.msg []))))
receive_pass-retry_example =
    receive_pass-retry config cpu 0 0 receiver 2 (7 ∷ 8 ∷ 9 ∷ []) [] ring-Holds (omega arith)

queries-Holds_example : (count_get ring ≡ 1) × ((free_get ring ≡ 3) × (peek_size ring ≡ 3))
queries-Holds_example = queries-Holds ring stored ring-Holds

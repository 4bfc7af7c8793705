-- ===== src/Queue/Tests.antt =====
-- The theorems about queues at concrete inputs, and a run of the code.
use ahura_rtos.Shared.{◌≡◌, refl, false, some, [], ◌∷◌, arith, read_bytes}
use ahura_rtos.Task.Tests.{config, cpu, queue, busy_system}
use ahura_rtos.Blocking.{timeout_to_ticks, World, Pause, nonblocking}
use ahura_rtos.Blocking.Ends.{Outlasts, Returns}
use ahura_rtos.Queue.Ends.{send-Returns}
use ahura_rtos.Queue.Defs.{Queue, overwrite, Receiver, send_pass, send, receive_pass}
use ahura_rtos.Queue.Fifo.{
  contents, IsValid, fifo_send, fifo_receive, send_pass-fifo_send, receive_pass-fifo_receive,
}

-- Three slots of two bytes, with items in the last slot and the first one.
abbrev ring : Queue
ring = record {
  buffer = some 4096;
  bytes = λ i. i;
  item_size = 2;
  capacity = 3;
  head = 2;
  tail = 1;
  count = 2;
  send_waiters = 8;
  receive_waiters = queue;
  buffer_owned = false;
  mode = overwrite;
}

abbrev sender : World Queue
sender = record { sched = busy_system; now = 0; object = ring }

abbrev receiver : World Receiver
receiver = record { sched = busy_system; now = 0; object = record { queue = ring; item_out = [] } }

ring-IsValid : IsValid ring
ring-IsValid = record {
  positive = omega arith;
  word = omega arith;
  bytes_word = omega arith;
  few = omega arith;
  inside = omega arith;
  behind = refl;
}

contents-ring : contents ring ≡ (4 ∷ 5 ∷ []) ∷ (0 ∷ 1 ∷ []) ∷ []
unfolding read_bytes
contents-ring = refl

send_pass-fifo_send_example :
    (let (verdict, w') = send_pass config cpu (9 ∷ 8 ∷ []) 0 0 sender in
      ((verdict, contents w'.object)
        ≡ fifo_send (nonblocking cpu 0 busy_system) 0 3 overwrite (9 ∷ 8 ∷ []) (contents ring))
      × IsValid w'.object)
send_pass-fifo_send_example =
    send_pass-fifo_send config cpu 0 0 sender ring-IsValid (9 ∷ 8 ∷ []) refl

receive_pass-fifo_receive_example :
    (let (verdict, w') = receive_pass config cpu 0 0 receiver in
      ((verdict, w'.object.item_out, contents w'.object.queue)
        ≡ fifo_receive (nonblocking cpu 0 busy_system) 0 [] (contents ring))
      × IsValid w'.object.queue)
receive_pass-fifo_receive_example = receive_pass-fifo_receive config cpu 0 0 receiver ring-IsValid

-- Five milliseconds at a thousand ticks a second pass.
abbrev send_five : Pause Queue
send_five w = record w { now = 5 }

send_five-Outlasts : Outlasts config cpu (timeout_to_ticks 1000 5) 0 send_five
unfolding timeout_to_ticks
send_five-Outlasts w armed = (5, (omega arith, (omega arith, omega arith)))

send-Returns_example : Returns (send config cpu 1000 (9 ∷ 8 ∷ []) 5 (send_five ∷ []) sender)
send-Returns_example =
    send-Returns config cpu 1000 (9 ∷ 8 ∷ []) 5 [] send_five [] sender (omega arith) (omega arith)
      send_five-Outlasts

-- ===== src/Msg/Defs.antt =====
-- The operations of kernel/os_msg.c.
use ahura_rtos.Shared.{
  ℕ, zero, suc, ◌+◌, ◌-◌, ◌*◌, ◌/◌, ◌%◌, ◌^◌, Bool, true, false, not, ◌&&◌, ◌||◌, Option, none,
  some, List, [], ◌∷◌, if◌then◌else◌, ltb, leb, ◌==◌, is_empty, update, add32, sub32, write_bytes,
  length,
}
use Prim.Native.Nat.{bit_or}
use ahura_rtos.Shared.Circle.{write_round, read_round}
use ahura_rtos.Status.{Status, ok, invalid_arg, busy, full, empty, timeout, no_memory}
use ahura_rtos.Task.State.{Config, Cpu, Sched}
use ahura_rtos.Task.Wait.{Match, wait_begin, wait_end, wait_data_set, wake_one, wake_match}
use ahura_rtos.Blocking.{
  timeout_to_ticks, nonblocking, World, Verdict, done, wait, Pause, try_later, wait_loop,
}

-- OS_MSG_HEADER_BYTES, OS_MSG_LENGTH_MAX, OS_MSG_SPACE(1)
abbrev pub header_bytes : ℕ
header_bytes = 2

abbrev pub length_max : ℕ
length_max = 0xFFFF

abbrev pub least_space : ℕ
least_space = header_bytes + 1

-- os_msg_t, with the bytes that its buffer points to.
pub record Msg : Type 0 where
  pub buffer : Option ℕ
  pub bytes : ℕ → ℕ
  pub capacity : ℕ
  pub head : ℕ
  pub tail : ℕ
  pub used : ℕ
  pub count : ℕ
  pub send_waiters : ℕ
  pub receive_waiters : ℕ
  pub buffer_owned : Bool

-- A message buffer, and the memory that a receiver's data and length_out point to.
pub record Receiver : Type 0 where
  pub msg : Msg
  pub destination : ℕ → ℕ
  pub length_out : ℕ

-- os_msg_ring_write
unfoldable pub ring_write : List ℕ → Msg → Msg
ring_write source m = record m {
  bytes = write_round m.bytes (sub32 m.capacity m.tail) m.tail source;
  tail = add32 m.tail (length source) % m.capacity;
}

-- os_msg_ring_read: the bytes for the destination, and the buffer with its head behind them.
unfoldable pub ring_read : ℕ → Msg → List ℕ × Msg
ring_read n m = (
  read_round m.bytes (sub32 m.capacity m.head) m.head n,
  record m { head = add32 m.head n % m.capacity },
)

-- The loop of os_msg_length_write, with the bytes that are left to make: `& 0xFF` is `% 256`.
abbrev pub header_from : ℕ → ℕ → ℕ → List ℕ
header_from n zero index = []
header_from n (suc left) index = n / 2 ^ (8 * index) % 256 ∷ header_from n left (index + 1)

-- os_msg_length_write
unfoldable pub length_write : ℕ → Msg → Msg
length_write n m = ring_write (header_from n header_bytes 0) m

-- The loop of os_msg_length_peek, with the bytes that are left to read.
abbrev pub peek_from : Msg → ℕ → ℕ → ℕ → ℕ → ℕ
peek_from m zero byte index n = n
peek_from m (suc left) byte index n =
    peek_from m left (byte + 1) (add32 index 1 % m.capacity)
      (bit_or n (m.bytes index * 2 ^ (8 * byte)))

-- os_msg_length_peek
unfoldable pub length_peek : Msg → ℕ
length_peek m = peek_from m header_bytes 0 m.head 0

-- os_msg_sender_match
unfoldable pub sender_match : ℕ → ℕ → Msg → Match Msg
sender_match needed unused m = record {
  satisfied = leb needed (sub32 m.capacity m.used);
  result = 0;
  context = m;
}

-- os_msg_send with room for the message.
unfoldable pub put : List ℕ → Msg → Msg
put message m =
    let stored = ring_write message (length_write (length message) m) in
    record stored {
      used = add32 m.used (add32 (length message) header_bytes);
      count = add32 m.count 1;
    }

-- os_msg_receive with a message of that length that fits the caller's memory.
unfoldable pub get : ℕ → Msg → List ℕ × Msg
get n m =
    let (bytes, rest) = ring_read n (record m { head = add32 m.head header_bytes % m.capacity }) in
    (bytes, record rest { used = sub32 m.used (add32 n header_bytes); count = m.count - 1 })

module _ (k : Config) (c : Cpu) where
  -- The critical section of os_msg_send.
  unfoldable pub send_pass : List ℕ → ℕ → ℕ → World Msg → Verdict × World Msg
  send_pass message timeout_ms remaining_ticks w =
      let m = w.object in
      let needed = add32 (length message) header_bytes in
      let ended : World Msg = record w { sched = wait_end k c w.sched } in
      if ltb m.capacity needed
      then (done invalid_arg, ended)
      else (if leb needed (sub32 m.capacity m.used)
          then (
            done ok,
            record w {
              sched = wait_end k c (wake_one k c m.receive_waiters w.sched).1;
              object = put message m;
            },
          )
          else (if nonblocking c timeout_ms w.sched
              then (done full, ended)
              else (if remaining_ticks == 0 then (done timeout, ended) else (
                wait,
                record w {
                  sched =
                      wait_begin k c m.send_waiters remaining_ticks
                        (wait_data_set k c needed 0 w.sched);
                },
              ))))

  -- os_msg_send, for a buffer and data that are not NULL, with what the others do while it waits.
  unfoldable pub send : ℕ → List ℕ → ℕ → List (Pause Msg) → World Msg → Option (Status × World Msg)
  send tick_hz message timeout_ms pauses w =
      let budget_ticks = timeout_to_ticks tick_hz timeout_ms in
      let sent =
        wait_loop (send_pass message timeout_ms) (try_later k c budget_ticks w.now) pauses
          budget_ticks w in
      if not (length message == 0) && leb (length message) length_max
      then sent
      else some (invalid_arg, w)

  -- os_msg_receive with a message there, of the length in its header, before the next receiver is
  -- looked for.
  unfoldable pub taken : ℕ → World Receiver → Status × World Receiver
  taken data_size w =
      let m = w.object.msg in
      let n = length_peek m in
      let (bytes, rest) = get n m in
      let told : Receiver = record w.object { length_out = n } in
      if ltb data_size n then (invalid_arg, record w { object = told }) else (
        ok,
        record w {
          sched = (wake_match k c sender_match m.send_waiters rest w.sched).2;
          object = record told { msg = rest; destination = write_bytes told.destination 0 bytes };
        },
      )

  -- The critical section of os_msg_receive.
  unfoldable pub receive_pass : ℕ → ℕ → ℕ → World Receiver → Verdict × World Receiver
  receive_pass data_size timeout_ms remaining_ticks w =
      let ended : World Receiver = record w { sched = wait_end k c w.sched } in
      let (status, after) = taken data_size w in
      let m = after.object.msg in
      if ltb 0 w.object.msg.count
      then (
        done status,
        record after {
          sched = wait_end k c (
              if ltb 0 m.count
              then (wake_one k c m.receive_waiters after.sched).1
              else after.sched);
        },
      )
      else (if nonblocking c timeout_ms w.sched
          then (done empty, ended)
          else (if remaining_ticks == 0 then (done timeout, ended) else (
            wait,
            record w {
              sched = wait_begin k c w.object.msg.receive_waiters remaining_ticks w.sched;
            },
          )))

  -- os_msg_receive, for pointers that are not NULL, with what the others do while it waits.
  unfoldable pub receive :
      ℕ → ℕ → ℕ → List (Pause Receiver) → World Receiver → Option (Status × World Receiver)
  receive tick_hz data_size timeout_ms pauses w =
      let budget_ticks = timeout_to_ticks tick_hz timeout_ms in
      wait_loop (receive_pass data_size timeout_ms) (try_later k c budget_ticks w.now) pauses
        budget_ticks w

unfoldable pub count_get : Msg → ℕ
count_get m = m.count

unfoldable pub free_get : Msg → ℕ
free_get m = sub32 m.capacity m.used

-- os_msg_peek_size
unfoldable pub peek_size : Msg → ℕ
peek_size m = if ltb 0 m.count then length_peek m else 0

-- Whether a task waits at either end.
abbrev pub has_waiters : Sched → Msg → Bool
has_waiters s m =
    not (is_empty (s.waiters m.send_waiters)) || not (is_empty (s.waiters m.receive_waiters))

abbrev pub lists_reset : Msg → Sched → Sched
lists_reset m s = record s {
  waiters = update (update s.waiters m.send_waiters []) m.receive_waiters [];
}

-- os_msg_init_dynamic, for a buffer that is not NULL. `allocated` is what os_mem_alloc returns for
-- byte_size bytes; the result has the memory that goes back to os_mem_free.
unfoldable pub init_dynamic : ℕ → Option ℕ → World Msg → Status × Option ℕ × World Msg
init_dynamic byte_size allocated w =
    let m = w.object in
    if leb least_space byte_size
    then elim allocated [
      | none ↦ (no_memory, none, w)
      | some buffer ↦ if has_waiters w.sched m then (busy, some buffer, w) else (
        ok,
        none,
        record w {
          sched = lists_reset m w.sched;
          object = record m {
            buffer = some buffer;
            capacity = byte_size;
            head = 0;
            tail = 0;
            used = 0;
            count = 0;
            buffer_owned = true;
          };
        },
      )
    ]
    else (invalid_arg, none, w)

-- os_msg_cleanup, with the memory that goes back to os_mem_free.
unfoldable pub cleanup : World Msg → Status × Option ℕ × World Msg
cleanup w =
    let m = w.object in
    let emptied : Msg = record m { head = 0; tail = 0; used = 0; count = 0 } in
    let released : Msg = record emptied { buffer = none; capacity = 0; buffer_owned = false } in
    if has_waiters w.sched m then (busy, none, w) else (
      ok,
      if m.buffer_owned then m.buffer else none,
      record w {
        sched = lists_reset m w.sched;
        object = if m.buffer_owned then released else emptied;
      },
    )

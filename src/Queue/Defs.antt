-- ===== src/Queue/Defs.antt =====
-- The operations of kernel/os_queue.c.
use ahura_rtos.Shared.{
  ℕ, ◌-◌, ◌*◌, ◌/◌, ◌%◌, Bool, true, false, not, ◌&&◌, ◌||◌, Option, none, some, List, [],
  if◌then◌else◌, ltb, leb, ◌==◌, is_empty, update, add32, sub32, u32_max, write_bytes, read_bytes,
}
use ahura_rtos.Status.{Status, ok, invalid_arg, busy, full, empty, timeout, no_memory}
use ahura_rtos.Task.State.{Config, Cpu, Sched}
use ahura_rtos.Task.Wait.{wait_begin, wait_end, wait_signaled, wake_one}
use ahura_rtos.Blocking.{
  timeout_to_ticks, wait_remaining, nonblocking, World, Verdict, done, wait, Pause, try_later,
  wait_loop,
}

-- os_queue_mode_t
pub data Mode : Type 0 where
  normal overwrite : Mode

abbrev pub is_overwrite : Mode → Bool
is_overwrite normal = false
is_overwrite overwrite = true

-- os_queue_t, with the bytes that its buffer points to.
pub record Queue : Type 0 where
  pub buffer : Option ℕ
  pub bytes : ℕ → ℕ
  pub item_size : ℕ
  pub capacity : ℕ
  pub head : ℕ
  pub tail : ℕ
  pub count : ℕ
  pub send_waiters : ℕ
  pub receive_waiters : ℕ
  pub buffer_owned : Bool
  pub mode : Mode

-- A queue, and the bytes that a receiver's item_out points to.
pub record Receiver : Type 0 where
  pub queue : Queue
  pub item_out : List ℕ

-- The item at the tail, and the tail one further on.
unfoldable pub store : List ℕ → Queue → Queue
store item q = record q {
  bytes = write_bytes q.bytes (q.tail * q.item_size) item;
  tail = add32 q.tail 1 % q.capacity;
}

-- os_queue_send with room in the buffer, and in overwrite mode with none.
unfoldable pub put : List ℕ → Queue → Queue
put item q = let stored = store item q in record stored { count = add32 q.count 1 }

unfoldable pub put_over : List ℕ → Queue → Queue
put_over item q = store item (record q { head = add32 q.head 1 % q.capacity })

-- os_queue_receive with an item there: the item, and the queue without it.
unfoldable pub get : Queue → List ℕ × Queue
get q = (
  read_bytes q.bytes (q.head * q.item_size) q.item_size,
  record q { head = add32 q.head 1 % q.capacity; count = q.count - 1 },
)

module _ (k : Config) (c : Cpu) where
  -- An item is there for the first receiver, and the call is over.
  unfoldable pub sent : Queue → World Queue → World Queue
  sent q w = record w {
    sched = wait_end k c (wake_one k c q.receive_waiters w.sched).1;
    object = q;
  }

  -- The critical section of os_queue_send.
  unfoldable pub send_pass : List ℕ → ℕ → ℕ → World Queue → Verdict × World Queue
  send_pass item timeout_ms remaining_ticks w =
      let q = w.object in
      let at_once = nonblocking c timeout_ms w.sched in
      let ended : World Queue = record w { sched = wait_end k c w.sched } in
      if ltb q.count q.capacity
      then (done ok, sent (put item q) w)
      else (if is_overwrite q.mode && (not (q.capacity == 0) && (at_once || remaining_ticks == 0))
          then (done ok, sent (put_over item q) w)
          else (if at_once
              then (done full, ended)
              else (if remaining_ticks == 0 then (done timeout, ended) else (
                wait,
                record w { sched = wait_begin k c q.send_waiters remaining_ticks w.sched },
              ))))

  -- When its time is up, os_queue_send looks a last time.
  unfoldable pub send_resume : ℕ → ℕ → World Queue → Verdict × ℕ × World Queue
  send_resume budget_ticks start_tick w =
      if wait_signaled k c w.sched
      then (wait, wait_remaining budget_ticks start_tick w.now, w)
      else (wait, 0, record w { sched = wait_end k c w.sched })

  -- os_queue_send, with what the others do while it waits.
  unfoldable pub send :
      ℕ → List ℕ → ℕ → List (Pause Queue) → World Queue → Option (Status × World Queue)
  send tick_hz item timeout_ms pauses w =
      let budget_ticks = timeout_to_ticks tick_hz timeout_ms in
      wait_loop (send_pass item timeout_ms) (send_resume budget_ticks w.now) pauses budget_ticks w

  -- The critical section of os_queue_receive.
  unfoldable pub receive_pass : ℕ → ℕ → World Receiver → Verdict × World Receiver
  receive_pass timeout_ms remaining_ticks w =
      let q = w.object.queue in
      let ended : World Receiver = record w { sched = wait_end k c w.sched } in
      if ltb 0 q.count
      then (let (item, rest) = get q in
          (
            done ok,
            record w {
              sched = wait_end k c (wake_one k c q.send_waiters w.sched).1;
              object = record { queue = rest; item_out = item };
            },
          ))
      else (if nonblocking c timeout_ms w.sched
          then (done empty, ended)
          else (if remaining_ticks == 0 then (done timeout, ended) else (
            wait,
            record w { sched = wait_begin k c q.receive_waiters remaining_ticks w.sched },
          )))

  -- os_queue_receive, with what the others do while it waits.
  unfoldable pub receive :
      ℕ → ℕ → List (Pause Receiver) → World Receiver → Option (Status × World Receiver)
  receive tick_hz timeout_ms pauses w =
      let budget_ticks = timeout_to_ticks tick_hz timeout_ms in
      wait_loop (receive_pass timeout_ms) (try_later k c budget_ticks w.now) pauses budget_ticks w

-- os_queue_mode_set, for a mode of the enumeration.
unfoldable pub mode_set : Mode → Queue → Status × Queue
mode_set mode q = (ok, record q { mode = mode })

unfoldable pub count_get : Queue → ℕ
count_get q = q.count

unfoldable pub free_get : Queue → ℕ
free_get q = sub32 q.capacity q.count

-- Whether a task waits at either end.
abbrev pub has_waiters : Sched → Queue → Bool
has_waiters s q =
    not (is_empty (s.waiters q.send_waiters)) || not (is_empty (s.waiters q.receive_waiters))

abbrev pub lists_reset : Queue → Sched → Sched
lists_reset q s = record s {
  waiters = update (update s.waiters q.send_waiters []) q.receive_waiters [];
}

-- os_queue_bind_buffer, for a buffer that is not NULL.
unfoldable pub bind_buffer : ℕ → ℕ → ℕ → World Queue → Status × World Queue
bind_buffer buffer item_size capacity w =
    let q = w.object in
    if not (item_size == 0) && not (capacity == 0)
    then (if has_waiters w.sched q then (busy, w) else (
      ok,
      record w {
        sched = lists_reset q w.sched;
        object = record q {
          buffer = some buffer;
          item_size = item_size;
          capacity = capacity;
          head = 0;
          tail = 0;
          count = 0;
          buffer_owned = false;
        };
      },
    ))
    else (invalid_arg, w)

-- os_queue_init_dynamic. `allocated` is what os_mem_alloc returns for item_size * capacity bytes;
-- the result has the buffer that goes back to os_mem_free.
unfoldable pub init_dynamic : ℕ → ℕ → Option ℕ → World Queue → Status × Option ℕ × World Queue
init_dynamic item_size capacity allocated w =
    if not (item_size == 0) && (not (capacity == 0) && leb capacity (u32_max / item_size))
    then elim allocated [
      | none ↦ (no_memory, none, w)
      | some buffer ↦
          let (status, w') = bind_buffer buffer item_size capacity w in
          elim status [
            | ok ↦ (ok, none, record w' { object = record w'.object { buffer_owned = true } })
            | other ↦ (other, some buffer, w')
          ]
    ]
    else (invalid_arg, none, w)

-- os_queue_cleanup, with the buffer that goes back to os_mem_free.
unfoldable pub cleanup : World Queue → Status × Option ℕ × World Queue
cleanup w =
    let q = w.object in
    let emptied : Queue = record q { head = 0; tail = 0; count = 0 } in
    let released : Queue = record emptied {
      buffer = none;
      item_size = 0;
      capacity = 0;
      buffer_owned = false;
    } in
    if has_waiters w.sched q then (busy, none, w) else (
      ok,
      if q.buffer_owned then q.buffer else none,
      record w {
        sched = lists_reset q w.sched;
        object = if q.buffer_owned then released else emptied;
      },
    )

-- ===== src/Log/Defs.antt =====
-- The operations of kernel/os_log.c.
use ahura_rtos.Shared.{
  ℕ, ◌+◌, ◌-◌, ◌%◌, Option, none, some, List, if◌then◌else◌, ltb, leb, ◌==◌, update, add32, sub32,
  read_bytes, length,
}
use ahura_rtos.Shared.Circle.{write_round}
use ahura_rtos.Task.State.{Config, Cpu}
use ahura_rtos.Task.Wait.{wake_locked}
use ahura_rtos.Blocking.{World}

-- os_log_buffer, os_log_head, os_log_tail, os_log_dropped, os_log_dropped_pending
pub record Log : Type 0 where
  pub buffer : ℕ → ℕ
  pub head : ℕ
  pub tail : ℕ
  pub dropped : ℕ
  pub dropped_pending : ℕ

-- A line for which there is no room, in os_log_queue.
unfoldable pub drop_line : Log → Log
drop_line g = record g { dropped = add32 g.dropped 1; dropped_pending = add32 g.dropped_pending 1 }

module _ (buffer_size : ℕ) where
  -- os_log_free_space
  unfoldable pub free_space : Log → ℕ
  free_space g =
      let used =
        if leb g.tail g.head then g.head - g.tail else sub32 buffer_size (g.tail - g.head) in
      sub32 (buffer_size - 1) used

  -- os_log_put
  unfoldable pub put : List ℕ → Log → Log
  put line g = record g {
    buffer = write_round g.buffer (sub32 buffer_size g.head) g.head line;
    head = add32 g.head (length line) % buffer_size;
  }

  -- os_log_queue, with os_log_task_tcb.
  unfoldable pub queue : Config → Cpu → Option ℕ → List ℕ → World Log → World Log
  queue k c log_task line w =
      if ltb (free_space w.object) (length line)
      then record w { object = drop_line w.object }
      else record w {
        sched = elim log_task [ none ↦ w.sched | some r ↦ wake_locked k c r w.sched ];
        object = put line w.object;
      }

  -- What os_log_task_entry hands out at a time: up to the head, or up to the end of the buffer.
  unfoldable pub chunk_length : Log → ℕ
  chunk_length g =
      if g.head == g.tail then 0 else (if ltb g.tail g.head then g.head else buffer_size) - g.tail

  -- Behind os_log_output_cb.
  unfoldable pub advance : ℕ → Log → Log
  advance n g = record g { tail = add32 g.tail n % buffer_size }

-- The lost lines that os_log_task_entry reports next.
unfoldable pub notice_taken : Log → ℕ × Log
notice_taken g = (g.dropped_pending, record g { dropped_pending = 0 })

unfoldable pub dropped_get : Log → ℕ
dropped_get g = g.dropped

-- How much of a line os_log_write keeps, of a buffer of line_max bytes.
unfoldable pub clamped : ℕ → ℕ → ℕ → ℕ
clamped line_max prefix_len body_len =
    let total = prefix_len + body_len in
    let written = if ltb (line_max - 1) total then line_max - 1 else total in
    if ltb (line_max - 3) written then line_max - 3 else written

abbrev pub carriage_return : ℕ
carriage_return = 13

abbrev pub line_feed : ℕ
line_feed = 10

-- os_log_write, for a format that is not NULL. `line` is what snprintf and vsnprintf leave in the
-- line; their results are none if they are negative.
unfoldable pub write :
    ℕ → ℕ → Config → Cpu → Option ℕ → (ℕ → ℕ) → Option ℕ → Option ℕ → World Log → World Log
write buffer_size line_max k c log_task line none body w = w
write buffer_size line_max k c log_task line (some prefix_len) none w = w
write buffer_size line_max k c log_task line (some prefix_len) (some body_len) w =
    let total = clamped line_max prefix_len body_len in
    let ended = update (update line total carriage_return) (total + 1) line_feed in
    if ltb prefix_len line_max
    then queue buffer_size k c log_task (read_bytes ended 0 (total + 2)) w
    else w

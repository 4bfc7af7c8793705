-- ===== src/Event/Defs.antt =====
-- The operations of kernel/os_event.c.
use ahura_rtos.Shared.{
  ℕ, ◌-◌, Bool, not, ◌&&◌, Option, some, List, [], if◌then◌else◌, ◌==◌, is_empty, update, u32_max,
}
use Prim.Native.Nat.{bit_and, bit_or}
use ahura_rtos.Status.{Status, ok, invalid_arg, busy, timeout}
use ahura_rtos.Task.State.{Config, Cpu}
use ahura_rtos.Task.Wait.{
  Match, wait_begin, wait_end, wait_signaled, wait_data_set, wait_result_get, wake_match,
}
use ahura_rtos.Blocking.{
  timeout_to_ticks, wait_remaining, nonblocking, World, Verdict, done, wait, Pause, wait_loop,
}

-- os_event_t
pub record Event : Type 0 where
  pub flags : ℕ
  pub waiters : ℕ

-- OS_EVENT_WAIT_ALL_FLAG, OS_EVENT_CLEAR_ON_EXIT_FLAG
abbrev pub wait_all_flag : ℕ
wait_all_flag = 1

abbrev pub clear_on_exit_flag : ℕ
clear_on_exit_flag = 2

-- `~bits` of a 32-bit word
abbrev pub complement : ℕ → ℕ
complement bits = u32_max - bits

-- os_event_match_context_t
pub record MatchContext : Type 0 where
  pub flags_snapshot : ℕ
  pub clear_accum : ℕ

-- os_event_waiter_match
unfoldable pub waiter_match : ℕ → ℕ → MatchContext → Match MatchContext
waiter_match data0 data1 context =
    let matched = bit_and context.flags_snapshot data0 in
    let satisfied =
      if not (bit_and data1 wait_all_flag == 0) then matched == data0 else not (matched == 0) in
    record {
      satisfied = satisfied;
      result = if satisfied then matched else 0;
      context =
          if satisfied && not (bit_and data1 clear_on_exit_flag == 0)
          then record context { clear_accum = bit_or context.clear_accum data0 }
          else context;
    }

-- os_event_init
unfoldable pub init : World Event → Status × World Event
init w =
    let e = w.object in
    if not (is_empty (w.sched.waiters e.waiters)) then (busy, w) else (
      ok,
      record w {
        sched = record w.sched { waiters = update w.sched.waiters e.waiters [] };
        object = record e { flags = 0 };
      },
    )

module _ (k : Config) (c : Cpu) where
  -- os_event_set_bits
  unfoldable pub set_bits : ℕ → World Event → Status × World Event
  set_bits bits w =
      let e = w.object in
      let flags = bit_or e.flags bits in
      let (_, context, s) =
        wake_match k c waiter_match e.waiters (record { flags_snapshot = flags; clear_accum = 0 })
          w.sched in
      (
        ok,
        record w {
          sched = s;
          object = record e { flags = bit_and flags (complement context.clear_accum) };
        },
      )

-- os_event_clear_bits
unfoldable pub clear_bits : ℕ → World Event → Status × World Event
clear_bits bits w =
    let e = w.object in
    (ok, record w { object = record e { flags = bit_and e.flags (complement bits) } })

-- A group, and what a waiter's matched_bits points to.
pub record Waiter : Type 0 where
  pub event : Event
  pub matched_bits : ℕ

abbrev pub wait_flags : Bool → Bool → ℕ
wait_flags wait_all clear_on_exit =
    bit_or (if wait_all then wait_all_flag else 0) (if clear_on_exit then clear_on_exit_flag else 0)

abbrev pub is_match : Bool → ℕ → ℕ → Bool
is_match wait_all current_flags bits =
    if wait_all then current_flags == bits else not (current_flags == 0)

module _ (k : Config) (c : Cpu) where
  -- The critical section of os_event_wait_bits.
  unfoldable pub wait_pass : ℕ → Bool → Bool → ℕ → ℕ → World Waiter → Verdict × World Waiter
  wait_pass bits wait_all clear_on_exit timeout_ms remaining_ticks w =
      let e = w.object.event in
      let current_flags = bit_and e.flags bits in
      let told : World Waiter = record w {
        object = record w.object { matched_bits = current_flags };
      } in
      let ended : World Waiter = record told { sched = wait_end k c w.sched } in
      let cleared : Event = record e { flags = bit_and e.flags (complement bits) } in
      if is_match wait_all current_flags bits
      then (
        done ok,
        record ended {
          object = record ended.object { event = if clear_on_exit then cleared else e };
        },
      )
      else (if nonblocking c timeout_ms w.sched
          then (done busy, ended)
          else (if remaining_ticks == 0 then (done timeout, ended) else (
            wait,
            record told {
              sched =
                  wait_begin k c e.waiters remaining_ticks
                    (wait_data_set k c bits (wait_flags wait_all clear_on_exit) w.sched);
            },
          )))

  -- A waiter that was signaled has what os_event_set_bits delivered, or tries again.
  unfoldable pub wait_resume : ℕ → ℕ → World Waiter → Verdict × ℕ × World Waiter
  wait_resume budget_ticks start_tick w =
      let delivered = wait_result_get k c w.sched in
      let ended : World Waiter = record w { sched = wait_end k c w.sched } in
      if not (wait_signaled k c w.sched)
      then (done timeout, 0, ended)
      else (if not (delivered == 0)
          then (done ok, 0, record ended { object = record w.object { matched_bits = delivered } })
          else (wait, wait_remaining budget_ticks start_tick w.now, w))

  -- os_event_wait_bits, with what the others do while it waits.
  unfoldable pub wait_bits :
      ℕ → ℕ → Bool → Bool → ℕ → List (Pause Waiter) → World Waiter → Option (Status × World Waiter)
  wait_bits tick_hz bits wait_all clear_on_exit timeout_ms pauses w =
      let budget_ticks = timeout_to_ticks tick_hz timeout_ms in
      let waited =
        wait_loop (wait_pass bits wait_all clear_on_exit timeout_ms)
          (wait_resume budget_ticks w.now) pauses budget_ticks w in
      if not (bits == 0) then waited else some (invalid_arg, w)

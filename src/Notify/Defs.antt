-- ===== src/Notify/Defs.antt =====
-- The operations of kernel/os_notify.c.
use ahura_rtos.Shared.{
  ℕ, Bool, true, false, not, ◌&&◌, Option, none, some, List, if◌then◌else◌, ◌==◌, update,
}
use ahura_rtos.Status.{Status, ok, invalid_arg, empty, timeout, isr}
use ahura_rtos.Task.State.{is_blocked, Config, Cpu, Sched}
use ahura_rtos.Task.Ids.{find_by_id}
use ahura_rtos.Task.Wait.{current_task, sleep_ticks, wake_locked}
use ahura_rtos.Blocking.{
  timeout_to_ticks, wait_remaining, nonblocking, World, Verdict, done, wait, Pause, wait_loop,
}

-- os_notify_slot_t, for all tasks.
pub record Slots : Type 0 where
  pub value : ℕ → ℕ
  pub pending : ℕ → Bool
  pub waiting : ℕ → Bool

-- The mailboxes, and what a waiter's value_out points to, if it is not NULL.
pub record Waiter : Type 0 where
  pub slots : Slots
  pub value_out : Option ℕ

module _ (k : Config) (c : Cpu) where
  -- Whom os_notify_give means: the task of a handle's id, or without a handle the caller.
  abbrev pub receiver : Option ℕ → Sched → Option ℕ
  receiver (some id) s = if not (id == 0) then find_by_id k id s else none
  receiver none s = if not c.in_isr then current_task k c s else none

  -- os_notify_give
  unfoldable pub give : Option ℕ → ℕ → World Slots → Status × World Slots
  give task value w = elim (receiver task w.sched) [
    | none ↦ (invalid_arg, w)
    | some r ↦
        let n = w.object in
        let latched : Slots = record n {
          value = update n.value r value;
          pending = update n.pending r true;
        } in
        (
          ok,
          if is_blocked (w.sched.state r) && n.waiting r
              then record w {
                sched = wake_locked k c r w.sched;
                object = record latched { waiting = update n.waiting r false };
              }
              else record w { object = latched },
        )
  ]

  -- The critical section of os_notify_wait.
  unfoldable pub wait_pass : ℕ → ℕ → World Waiter → Verdict × World Waiter
  wait_pass timeout_ms remaining_ticks w = elim (current_task k c w.sched) [
    | none ↦ (done invalid_arg, w)
    | some r ↦
        let n = w.object.slots in
        let awake : Slots = record n { waiting = update n.waiting r false } in
        let looked : World Waiter = record w { object = record w.object { slots = awake } } in
        if n.pending r
        then (
          done ok,
          record w {
            object = record {
              slots = record awake {
                pending = update n.pending r false;
                value = update n.value r 0;
              };
              value_out = elim w.object.value_out [ none ↦ none | some old ↦ some (n.value r) ];
            };
          },
        )
        else (if nonblocking c timeout_ms w.sched
            then (done empty, looked)
            else (if remaining_ticks == 0 then (done timeout, looked) else (
              wait,
              record w {
                sched = sleep_ticks k c remaining_ticks w.sched;
                object = record w.object {
                  slots = record awake { waiting = update n.waiting r true };
                };
              },
            )))
  ]

  -- However the sleep ended, os_notify_wait looks again.
  unfoldable pub wait_resume : ℕ → ℕ → World Waiter → Verdict × ℕ × World Waiter
  wait_resume budget_ticks start_tick w = (wait, wait_remaining budget_ticks start_tick w.now, w)

  -- os_notify_wait, with what the others do while it waits.
  unfoldable pub wait_for :
      ℕ → ℕ → List (Pause Waiter) → World Waiter → Option (Status × World Waiter)
  wait_for tick_hz timeout_ms pauses w =
      let budget_ticks = timeout_to_ticks tick_hz timeout_ms in
      let waited =
        wait_loop (wait_pass timeout_ms) (wait_resume budget_ticks w.now) pauses budget_ticks w in
      if c.in_isr then some (isr, w) else waited

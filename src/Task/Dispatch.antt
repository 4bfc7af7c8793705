-- ===== src/Task/Dispatch.antt =====
-- Time and dispatch (kernel/os_task.c: os_task_tick_update, os_task_next_delay_ticks_get,
-- os_task_reschedule_possible, os_task_slice_tick, os_task_stack_save_current,
-- os_task_stack_select_next).
use ahura_rtos.Shared.{
  ℕ, zero, suc, ◌+◌, ◌-◌, Bool, true, false, not, ◌&&◌, ◌||◌, Option, none, some, List, [], ◌∷◌,
  if◌then◌else◌, ltb, leb, ◌==◌, update, erase, is_empty, u32_max,
}
use ahura_rtos.Status.{prio_max}
use ahura_rtos.Task.State.{TaskState, is_running, Config, Cpu, Sched, idle_tcb}
use ahura_rtos.Task.Port.{preempt_if_running, allowed_on}
use ahura_rtos.Task.Queues.{make_ready}
use ahura_rtos.Task.Inherit.{some_bit, unlink}

module _ (k : Config) (c : Cpu) where
  -- A sleeper whose time has come: out of its lists, and ready.
  unfoldable pub expire_sleeper : ℕ → Sched → Sched
  expire_sleeper r s =
      let woken : Sched = record s { delay_ticks = update s.delay_ticks r 0 } in
      preempt_if_running k c r (make_ready r (unlink k c r woken))

  -- The walk of os_task_tick_update, on the sleepers that it has not yet seen.
  unfoldable pub tick_walk : List ℕ → ℕ → Sched → Sched
  tick_walk [] elapsed s = s
  tick_walk (r ∷ rs) elapsed s =
      if ltb elapsed (s.delay_ticks r)
      then record s { delay_ticks = update s.delay_ticks r (s.delay_ticks r - elapsed) }
      else tick_walk rs (elapsed - s.delay_ticks r) (expire_sleeper r s)

  unfoldable pub tick_update : ℕ → Sched → Sched
  tick_update elapsed s = if elapsed == 0 then s else tick_walk s.delay_list elapsed s

  unfoldable pub next_delay_ticks_get : Sched → ℕ
  next_delay_ticks_get s = elim s.delay_list [ [] ↦ u32_max | r ∷ _ ↦ s.delay_ticks r ]

  unfoldable pub reschedule_possible : Sched → Bool
  reschedule_possible s =
      if not (s.port.lock_count c.core == 0) then false else elim (s.current c.core) [
        | none ↦ some_bit s.ready_bitmap (prio_max + 1) 0
        | some r ↦
            let p = s.priority r in
            (if ltb p prio_max then some_bit s.ready_bitmap (prio_max - p) (p + 1) else false)
            || (ltb 0 k.time_slice && (s.slice_left c.core == 0 && s.ready_bitmap p))
      ]

  unfoldable pub slice_tick : ℕ → Sched → Sched
  slice_tick elapsed s =
      let left = s.slice_left c.core in
      if ltb 0 k.time_slice
      then record s {
        slice_left = update s.slice_left c.core (if ltb elapsed left then left - elapsed else 0);
      }
      else s

  -- What os_task_stack_save_current does with the task that it switches away from.
  unfoldable pub save_task : ℕ → ℕ → Sched → Sched
  save_task r stack_ptr s =
      let saved : Sched = record s { stack_ptr = update s.stack_ptr r stack_ptr } in
      if is_running (s.state r) && not (s.port.lock_count c.core == 0)
      then record saved {
        port = record s.port { switch_pending = update s.port.switch_pending c.core true };
      }
      else (let out : Sched = record saved {
        running_core = update saved.running_core r k.core_count;
      } in
          if is_running (s.state r)
          then (if r == idle_tcb k c.core
              then record out { state = update out.state r TaskState.ready }
              else make_ready r out)
          else out)

  unfoldable pub stack_save_current : ℕ → Sched → Sched
  stack_save_current stack_ptr s = elim (s.current c.core) [
    | none ↦ s
    | some r ↦ save_task r stack_ptr s
  ]

  -- Whether os_task_stack_select_next may take a queued task on this core.
  unfoldable pub is_eligible : Sched → ℕ → Bool
  is_eligible s r =
      leb k.core_count 1
      || (allowed_on (s.core_affinity r) c.core && s.running_core r == k.core_count)

  unfoldable pub first_eligible : Sched → List ℕ → Option ℕ
  first_eligible s [] = none
  first_eligible s (r ∷ rs) = if is_eligible s r then some r else first_eligible s rs

  -- From the highest set bit below a priority down, the first eligible task and its list.
  unfoldable pub pick : ℕ → Sched → Option (ℕ × ℕ)
  pick zero s = none
  pick (suc p) s =
      let lower = pick p s in
      if s.ready_bitmap p
      then elim (first_eligible s (s.ready_list p)) [ none ↦ lower | some r ↦ some (p, r) ]
      else lower

  -- The picked task leaves its ready list.
  unfoldable pub take_ready : ℕ → ℕ → Sched → Sched
  take_ready p r s =
      let list = erase r (s.ready_list p) in
      record s {
        ready_list = update s.ready_list p list;
        ready_bitmap = if is_empty list then update s.ready_bitmap p false else s.ready_bitmap;
      }

  unfoldable pub run_task : ℕ → Sched → Sched
  run_task r s = record s {
    state = update s.state r TaskState.running;
    running_core = update s.running_core r c.core;
    current = update s.current c.core (some r);
    slice_left =
        if ltb 0 k.time_slice then update s.slice_left c.core k.time_slice else s.slice_left;
  }

  -- What os_task_stack_select_next runs when no scheduler lock holds it back.
  unfoldable pub select_ready : Sched → ℕ × Sched
  select_ready s = elim (pick (prio_max + 1) s) [
    | none ↦ (idle_tcb k c.core, run_task (idle_tcb k c.core) s)
    | some (p, r) ↦ (r, run_task r (take_ready p r s))
  ]

  -- The task whose stack pointer os_task_stack_select_next returns.
  unfoldable pub stack_select_next : Sched → ℕ × Sched
  stack_select_next s = elim (s.current c.core) [
    | none ↦ select_ready s
    | some r ↦
        if not (s.port.lock_count c.core == 0) && is_running (s.state r)
        then (r, s)
        else select_ready s
  ]

-- ===== src/Task/Life.antt =====
-- The life of a task (kernel/os_task.c: os_task_create, os_task_create_system,
-- os_task_create_any, os_task_start, os_task_pause, os_task_delete, os_task_yield,
-- os_task_priority_set, os_task_core_affinity_set, os_task_tcb_clear).
use ahura_rtos.Shared.{
  ℕ, zero, suc, ◌+◌, ◌%◌, ◌/◌, ◌^◌, Bool, true, false, not, ◌&&◌, ◌||◌, Option, none, some, [],
  if◌then◌else◌, ltb, leb, ◌==◌, update, points_to, is_null,
}
use ahura_rtos.Status.{
  Status, ok, error, invalid_arg, full, busy, isr, prio_lowest, prio_highest, prio_max,
}
use ahura_rtos.Task.State.{
  TaskState, is_inactive, is_blocked, Config, Cpu, Sched, idle_tcb, test_bit,
}
use ahura_rtos.Task.Port.{running_core_of, port_ipi, switch_request, preempt_if_running}
use ahura_rtos.Task.Ids.{id_make, find_by_id}
use ahura_rtos.Task.Queues.{make_ready}
use ahura_rtos.Task.Inherit.{max_depth, priority_recompute, unlink}
use ahura_rtos.Task.Wait.{wake_compensate}

-- os_task_config_t, and the fields of os_task_storage_t: an address is none if it is NULL.
pub record TaskConfig : Type 0 where
  pub entry : Option ℕ
  pub priority : ℕ
  pub core_affinity : ℕ

pub record Storage : Type 0 where
  pub stack_memory : Option ℕ
  pub stack_bytes : ℕ

-- OS_CONFIG_MIN_STACK_SIZE and OS_ARCH_STACK_ALIGNMENT_BYTES
pub record StackRules : Type 0 where
  pub min_bytes : ℕ
  pub alignment : ℕ

-- os_task_create_args_ok, for a handle and a configuration that are not NULL.
unfoldable pub create_args_ok : Config → StackRules → Option Storage → TaskConfig → Bool
create_args_ok k rules none config = false
create_args_ok k rules (some storage) config = elim storage.stack_memory [
  | none ↦ false
  | some address ↦
      not (is_null config.entry)
      && (leb config.priority prio_max
          && (leb rules.min_bytes storage.stack_bytes
              && (config.core_affinity / 2 ^ k.core_count == 0
                  && (address % rules.alignment == 0
                      && storage.stack_bytes % rules.alignment == 0))))
]

-- The first inactive slot, from one on.
unfoldable pub free_slot : (ℕ → TaskState) → ℕ → ℕ → Option ℕ
free_slot state zero index = none
free_slot state (suc left) index =
    let rest = free_slot state left (index + 1) in
    if is_inactive (state index) then some index else rest

abbrev pub next_generation_of : ℕ → ℕ
next_generation_of generation =
    let next = (generation + 1) % 2 ^ 24 in if next == 0 then 1 else next

unfoldable pub claim_slot : ℕ → TaskConfig → ℕ → Bool → Sched → ℕ × Sched
claim_slot r config stack_ptr system_task s =
    let new_id = id_make r (s.next_generation r) in
    (
      new_id,
      record s {
        stack_ptr = update s.stack_ptr r stack_ptr;
        priority = update s.priority r config.priority;
        base_priority = update s.base_priority r config.priority;
        pi_owner_id = update s.pi_owner_id r 0;
        id = update s.id r new_id;
        delay_ticks = update s.delay_ticks r 0;
        core_affinity = update s.core_affinity r config.core_affinity;
        system_task = update s.system_task r system_task;
        state = update s.state r TaskState.suspended;
        next_generation = update s.next_generation r (next_generation_of (s.next_generation r));
      },
    )

-- os_task_tcb_clear
unfoldable pub tcb_clear : Config → ℕ → Sched → Sched
tcb_clear k r s = record s {
  stack_ptr = update s.stack_ptr r 0;
  priority = update s.priority r 0;
  id = update s.id r 0;
  delay_ticks = update s.delay_ticks r 0;
  core_affinity = update s.core_affinity r 0;
  system_task = update s.system_task r false;
  state = update s.state r TaskState.inactive;
  running_core = update s.running_core r k.core_count;
  wait_list = update s.wait_list r none;
  wait_signaled = update s.wait_signaled r false;
  wait_data0 = update s.wait_data0 r 0;
  wait_data1 = update s.wait_data1 r 0;
  wait_result = update s.wait_result r 0;
  woken_from = update s.woken_from r none;
  base_priority = update s.base_priority r 0;
  pi_owner_id = update s.pi_owner_id r 0;
  owned_mutexes = update s.owned_mutexes r [];
  blocked_on_mutex = update s.blocked_on_mutex r none;
  blocked_forever = update s.blocked_forever r false;
}

module _ (k : Config) (c : Cpu) where
  -- Whether a handle's id still names a task.
  abbrev pub handle_taken : ℕ → Sched → Bool
  handle_taken handle s = not (handle == 0) && not (is_null (find_by_id k handle s))

  -- The second critical section of os_task_create_any.
  unfoldable pub create_claim : ℕ → TaskConfig → ℕ → Bool → Sched → Status × ℕ × Sched
  create_claim handle config stack_ptr system_task s =
      if handle_taken handle s then (busy, handle, s) else elim (free_slot s.state k.table_size 0) [
        | none ↦ (full, handle, s)
        | some r ↦
            let (new_id, s') = claim_slot r config stack_ptr system_task s in (ok, new_id, s')
      ]

  -- os_task_create_any: the handle's id in and out. `initialized` is what
  -- os_arch_task_stack_initialize returns, and `meanwhile` what other tasks do between the two
  -- critical sections.
  unfoldable pub create_any :
      StackRules
      → Option Storage
      → ℕ
      → TaskConfig
      → Option ℕ
      → (Sched → Sched)
      → Bool
      → Sched
      → Status × ℕ × Sched
  create_any rules storage handle config initialized meanwhile system_task s =
      if not (create_args_ok k rules storage config)
      then (invalid_arg, handle, s)
      else (if handle_taken handle s then (busy, handle, s) else elim initialized [
        | none ↦ (error, handle, s)
        | some stack_ptr ↦ create_claim handle config stack_ptr system_task (meanwhile s)
      ])

  -- os_task_create
  unfoldable pub create :
      StackRules
      → Option Storage
      → ℕ
      → TaskConfig
      → Option ℕ
      → (Sched → Sched)
      → Sched
      → Status × ℕ × Sched
  create rules storage handle config initialized meanwhile s =
      if leb prio_lowest config.priority && leb config.priority prio_highest
      then create_any rules storage handle config initialized meanwhile false s
      else (invalid_arg, handle, s)

  -- os_task_start, once the handle is resolved.
  unfoldable pub start_task : ℕ → Sched → Sched
  start_task r s =
      let out = unlink k c r s in
      let revived : Sched =
        if is_blocked (s.state r)
        then record out { wait_signaled = update out.wait_signaled r true }
        else record out { delay_ticks = update out.delay_ticks r 0 } in
      preempt_if_running k c r (
        if ltb (running_core_of k r revived) k.core_count
        then record revived { state = update revived.state r TaskState.running }
        else make_ready r revived)

  unfoldable pub start : ℕ → Sched → Status × Sched
  start handle s = elim (find_by_id k handle s) [
    | none ↦ (invalid_arg, s)
    | some r ↦ (ok, start_task r s)
  ]

  -- The calling task, none in an interrupt (os_task_self_tcb).
  abbrev pub self_tcb : Sched → Option ℕ
  self_tcb s = if c.in_isr then none else s.current c.core

  -- The task that a handle names; none is a NULL handle, the caller's own.
  abbrev pub resolve : Option ℕ → Sched → Option ℕ
  resolve none s = self_tcb s
  resolve (some handle) s = find_by_id k handle s

  -- A wait that is cut short, so that the waiter looks again.
  unfoldable pub cut_wait : ℕ → Sched → Sched
  cut_wait r s =
      if is_blocked (s.state r)
      then record s { wait_signaled = update s.wait_signaled r true }
      else s

  unfoldable pub suspend : ℕ → Sched → Sched
  suspend r s = record s {
    delay_ticks = update s.delay_ticks r 0;
    state = update s.state r TaskState.suspended;
  }

  unfoldable pub pause_task : ℕ → Sched → Sched
  pause_task r s =
      let is_self = points_to (s.current c.core) r in
      let paused = suspend r (unlink k c r (cut_wait r (wake_compensate k c r s))) in
      if is_self && paused.kernel_running then switch_request k c paused else paused

  -- The refusals that os_task_pause and os_task_delete share.
  unfoldable pub refused : ℕ → Sched → Bool
  refused r s =
      let is_self = points_to (s.current c.core) r in
      s.system_task r
      || ((not is_self && ltb (running_core_of k r s) k.core_count)
          || (is_self && not (s.port.lock_count c.core == 0)))

  unfoldable pub pause : Option ℕ → Sched → Status × Sched
  pause task s = if c.in_isr then (isr, s) else elim (resolve task s) [
    | none ↦ (invalid_arg, s)
    | some r ↦ if r == idle_tcb k c.core || refused r s then (busy, s) else (ok, pause_task r s)
  ]

  -- The task that os_task_delete tears down: the caller's own is looked up by its id.
  unfoldable pub delete_target : Option ℕ → Sched → Option ℕ
  delete_target (some handle) s = find_by_id k handle s
  delete_target none s = elim (self_tcb s) [ none ↦ none | some r ↦ find_by_id k (s.id r) s ]

  unfoldable pub delete_task : ℕ → Sched → Sched
  delete_task r s =
      let is_self = points_to (s.current c.core) r in
      let cleared = tcb_clear k r (unlink k c r (wake_compensate k c r s)) in
      let gone : Sched =
        if is_self
        then record cleared { current = update cleared.current c.core none }
        else cleared in
      if is_self && gone.kernel_running then switch_request k c gone else gone

  unfoldable pub delete : Option ℕ → Sched → Status × Sched
  delete task s =
      if c.in_isr
      then (isr, s)
      else (if is_null task && points_to (self_tcb s) (idle_tcb k c.core)
          then (busy, s)
          else elim (delete_target task s) [
            | none ↦ (invalid_arg, s)
            | some r ↦ if refused r s then (busy, s) else (ok, delete_task r s)
          ])

  unfoldable pub yield : Sched → Sched
  yield s = if s.kernel_running && not c.in_isr then switch_request k c s else s

  unfoldable pub priority_set : Option ℕ → ℕ → Sched → Status × Sched
  priority_set task value s =
      if leb prio_lowest value && leb value prio_highest
      then elim (resolve task s) [
        | none ↦ (invalid_arg, s)
        | some r ↦ if r == idle_tcb k c.core || s.system_task r then (busy, s) else (
          ok,
          priority_recompute k c (unlink k c) max_depth (some r)
              (record s { base_priority = update s.base_priority r value }),
        )
      ]
      else (invalid_arg, s)

  -- os_task_core_affinity_set, of builds with several cores.
  unfoldable pub core_affinity_set : Option ℕ → ℕ → Sched → Status × Sched
  core_affinity_set task affinity s =
      if affinity / 2 ^ k.core_count == 0
      then elim (resolve task s) [
        | none ↦ (invalid_arg, s)
        | some r ↦
            let changed : Sched = record s { core_affinity = update s.core_affinity r affinity } in
            let running = running_core_of k r changed in
            (
              ok,
              if ltb running k.core_count
                    && (s.kernel_running
                        && (not (affinity == 0) && not (test_bit affinity running)))
                  then (if running == c.core
                      then switch_request k c changed
                      else record changed { port = port_ipi running changed.port })
                  else changed,
            )
      ]
      else (invalid_arg, s)

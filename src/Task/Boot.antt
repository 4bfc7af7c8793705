-- ===== src/Task/Boot.antt =====
-- The start of the system (kernel/os_task.c: os_task_system_init, os_task_idle_create,
-- os_task_idle_is_created).
use ahura_rtos.Shared.{
  ℕ, zero, suc, ◌^◌, ◌==◌, Bool, true, false, not, ◌&&◌, Option, none, some, [], if◌then◌else◌,
  update,
}
use ahura_rtos.Status.{Status, ok, error, prio_idle}
use ahura_rtos.Task.State.{TaskState, is_inactive, Config, Sched, idle_tcb}
use ahura_rtos.Task.Life.{tcb_clear}

module _ (k : Config) where
  -- The first slots of os_task_table.
  unfoldable pub clear_slots : ℕ → Sched → Sched
  clear_slots zero s = s
  clear_slots (suc n) s = tcb_clear k n (clear_slots n s)

  -- os_task_next_generation
  unfoldable pub reset_generations : ℕ → (ℕ → ℕ) → ℕ → ℕ
  reset_generations zero generation = generation
  reset_generations (suc n) generation = update (reset_generations n generation) n 1

  unfoldable pub core_init : ℕ → Sched → Sched
  core_init core s = tcb_clear k (idle_tcb k core) (record s {
    current = update s.current core none;
    port = record s.port {
      lock_count = update s.port.lock_count core 0;
      switch_pending = update s.port.switch_pending core false;
    };
    slice_left = update s.slice_left core k.time_slice;
  })

  -- The first cores.
  unfoldable pub cores_init : ℕ → Sched → Sched
  cores_init zero s = s
  cores_init (suc n) s = core_init n (cores_init n s)

  -- The scheduler's lists, emptied.
  abbrev pub lists_init : Sched → Sched
  lists_init s = record s {
    ready_list = λ priority. [];
    ready_bitmap = λ priority. false;
    delay_list = [];
    next_generation = reset_generations k.table_size s.next_generation;
  }

  unfoldable pub system_init : Sched → Sched
  system_init s = cores_init k.core_count (lists_init (clear_slots k.table_size s))

  -- The control block of a core's idle task. `stack_ptr` is what os_arch_task_stack_initialize
  -- returns for the stack.
  unfoldable pub idle_claim : ℕ → ℕ → Sched → Sched
  idle_claim core stack_ptr s =
      let r = idle_tcb k core in
      record s {
        stack_ptr = update s.stack_ptr r stack_ptr;
        priority = update s.priority r prio_idle;
        base_priority = update s.base_priority r prio_idle;
        id = update s.id r 0;
        delay_ticks = update s.delay_ticks r 0;
        core_affinity = update s.core_affinity r (2 ^ core);
        state = update s.state r TaskState.ready;
      }

  -- A core's turn in os_task_idle_create, unless there was an error before.
  unfoldable pub idle_next : (ℕ → Option ℕ) → ℕ → Status → Sched → Status × Sched
  idle_next initialized core status s = elim status [
    | ok ↦
        if is_inactive (s.state (idle_tcb k core))
        then elim (initialized core) [
          | none ↦ (error, s)
          | some stack_ptr ↦ (ok, idle_claim core stack_ptr s)
        ]
        else (ok, s)
    | other ↦ (other, s)
  ]

  -- The loop of os_task_idle_create over the first cores: it stops at the first error.
  unfoldable pub idle_create_upto : (ℕ → Option ℕ) → ℕ → Sched → Status × Sched
  idle_create_upto initialized zero s = (ok, s)
  idle_create_upto initialized (suc core) s =
      let (status, s') = idle_create_upto initialized core s in idle_next initialized core status s'

  -- os_task_idle_create
  unfoldable pub idle_create : (ℕ → Option ℕ) → Sched → Status × Sched
  idle_create initialized s = idle_create_upto initialized k.core_count s

  -- The loop of os_task_idle_is_created over the first cores; a stack pointer of 0 is NULL.
  unfoldable pub idle_is_created_upto : ℕ → Sched → Bool
  idle_is_created_upto zero s = true
  idle_is_created_upto (suc core) s =
      not (is_inactive (s.state (idle_tcb k core)))
      && (not (s.stack_ptr (idle_tcb k core) == 0) && idle_is_created_upto core s)

  -- os_task_idle_is_created
  unfoldable pub idle_is_created : Sched → Bool
  idle_is_created s = idle_is_created_upto k.core_count s

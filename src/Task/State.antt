-- ===== src/Task/State.antt =====
-- The state of kernel/os_task.c and the scheduler lock's, and the build's constants.
use ahura_rtos.Shared.{ℕ, ◌+◌, ◌/◌, ◌%◌, ◌^◌, Bool, true, false, Option, List, ◌==◌, ltb}

-- os_task_state_t
pub data TaskState : Type 0 where
  inactive ready running blocked suspended : TaskState

abbrev pub is_inactive : TaskState → Bool
is_inactive inactive = true
is_inactive _ = false

abbrev pub is_ready : TaskState → Bool
is_ready ready = true
is_ready _ = false

abbrev pub is_running : TaskState → Bool
is_running running = true
is_running _ = false

abbrev pub is_blocked : TaskState → Bool
is_blocked blocked = true
is_blocked _ = false

-- OS_CONFIG_CORE_COUNT, OS_TASK_TABLE_SIZE, OS_CONFIG_TIME_SLICE_TICKS
pub record Config : Type 0 where
  pub core_count : ℕ
  pub table_size : ℕ
  pub time_slice : ℕ

-- What os_arch_core_id_get and os_arch_in_isr answer to the caller.
pub record Cpu : Type 0 where
  pub core : ℕ
  pub in_isr : Bool

-- OS_ARCH_CONTEXT_SWITCH_REQUEST on a core, os_arch_core_ipi_request_cb for a core.
pub data Request : Type 0 where
  switch_on : ℕ → Request
  ipi_to : ℕ → Request

-- os_kernel_lock_count, os_kernel_switch_pending, and the requests made so far, the last one first.
pub record Port : Type 0 where
  pub lock_count : ℕ → ℕ
  pub switch_pending : ℕ → Bool
  pub requests : List Request

pub record Sched : Type 0 where
  -- os_task_tcb_t
  pub priority : ℕ → ℕ
  pub base_priority : ℕ → ℕ
  pub id : ℕ → ℕ
  pub delay_ticks : ℕ → ℕ
  pub core_affinity : ℕ → ℕ
  pub state : ℕ → TaskState
  pub running_core : ℕ → ℕ
  pub stack_ptr : ℕ → ℕ
  pub wait_list : ℕ → Option ℕ
  pub wait_signaled : ℕ → Bool
  pub system_task : ℕ → Bool
  pub wait_data0 : ℕ → ℕ
  pub wait_data1 : ℕ → ℕ
  pub wait_result : ℕ → ℕ
  pub woken_from : ℕ → Option ℕ
  pub owned_mutexes : ℕ → List ℕ
  pub pi_owner_id : ℕ → ℕ
  pub blocked_on_mutex : ℕ → Option ℕ
  pub blocked_forever : ℕ → Bool
  -- os_task_current, os_task_ready_list, os_task_ready_bitmap bit by bit, os_task_delay_list,
  -- os_task_next_generation, os_task_slice_left, os_kernel_running
  pub current : ℕ → Option ℕ
  pub ready_list : ℕ → List ℕ
  pub ready_bitmap : ℕ → Bool
  pub delay_list : List ℕ
  pub next_generation : ℕ → ℕ
  pub slice_left : ℕ → ℕ
  pub kernel_running : Bool
  pub port : Port
  -- the waiter lists of all kernel objects; os_mutex_t
  pub waiters : ℕ → List ℕ
  pub mutex_locked : ℕ → Bool
  pub mutex_owner_id : ℕ → ℕ
  pub mutex_waiters : ℕ → ℕ

-- &os_task_idle_tcb[core]
abbrev pub idle_tcb : Config → ℕ → ℕ
idle_tcb k core = k.table_size + core

-- Whether a number is that of a slot of os_task_table.
abbrev pub in_table : Config → ℕ → Bool
in_table k r = ltb r k.table_size

-- (mask & (1UL << n)) != 0
abbrev pub test_bit : ℕ → ℕ → Bool
test_bit mask n = mask / 2 ^ n % 2 == 1

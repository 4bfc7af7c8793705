-- ===== src/Task/Query.antt =====
-- What the kernel tells of its tasks (kernel/os_task.c: os_task_priority_get, os_task_state_get,
-- os_task_tcb_current, os_task_tcb_is_blocked, os_task_current_id_get, os_task_current_is_idle).
use ahura_rtos.Shared.{ℕ, Bool, Option, none, some, points_to}
use ahura_rtos.Status.{Status, ok, invalid_arg}
use ahura_rtos.Task.State.{TaskState, is_blocked, Config, Cpu, Sched, idle_tcb}
use ahura_rtos.Task.Wait.{current_task}
use ahura_rtos.Task.Life.{resolve}

module _ (k : Config) (c : Cpu) where
  -- os_task_priority_get, with a priority_out that is not NULL.
  unfoldable pub priority_get : Option ℕ → Sched → Status × Option ℕ
  priority_get task s = elim (resolve k c task s) [
    | none ↦ (invalid_arg, none)
    | some r ↦ (ok, some (s.base_priority r))
  ]

  unfoldable pub state_get : Option ℕ → Sched → TaskState
  state_get task s = elim (resolve k c task s) [ none ↦ TaskState.inactive | some r ↦ s.state r ]

  unfoldable pub tcb_current : Sched → Option ℕ
  tcb_current s = current_task k c s

  unfoldable pub tcb_is_blocked : ℕ → Sched → Bool
  tcb_is_blocked r s = is_blocked (s.state r)

  unfoldable pub current_id_get : Sched → ℕ
  current_id_get s = elim (s.current c.core) [ none ↦ 0 | some r ↦ s.id r ]

  unfoldable pub current_is_idle : Sched → Bool
  current_is_idle s = points_to (s.current c.core) (idle_tcb k c.core)

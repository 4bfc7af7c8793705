-- ===== src/Task/Ids.antt =====
-- Task ids (kernel/os_task.c: OS_TASK_ID_SLOT, OS_TASK_ID_MAKE, os_task_find_by_id).
use ahura_rtos.Shared.{
  ℕ, ◌+◌, ◌*◌, ◌/◌, ◌%◌, ◌^◌, not, ◌&&◌, Option, none, some, if◌then◌else◌, ltb, ◌==◌, sub32,
}
use ahura_rtos.Task.State.{is_inactive, Config, Sched}

-- OS_TASK_ID_SLOT: the subtraction wraps for an id with no slot in it.
unfoldable pub id_slot : ℕ → ℕ
id_slot id = sub32 (id / 2 ^ 24) 1

-- OS_TASK_ID_MAKE; the two fields have no bit in common, so the `|` is a sum.
unfoldable pub id_make : ℕ → ℕ → ℕ
id_make slot generation = (slot + 1) % 2 ^ 8 * 2 ^ 24 + generation % 2 ^ 24

-- os_task_find_by_id
unfoldable pub find_by_id : Config → ℕ → Sched → Option ℕ
find_by_id k id s =
    if not (id == 0)
      && (ltb (id_slot id) k.table_size
          && (not (is_inactive (s.state (id_slot id))) && s.id (id_slot id) == id))
    then some (id_slot id)
    else none

-- ===== src/Status.antt =====
-- kernel/os_types.h: status codes, timeout sentinels and priority levels.
use ahura_rtos.Shared.{ℕ, ◌-◌, ◌^◌}

-- os_err_t
pub data Status : Type 0 where
  ok error invalid_arg empty full busy timeout not_owner no_memory isr : Status

-- OS_WAIT_FOREVER, OS_WAIT_NOTHING
abbrev pub wait_forever : ℕ
wait_forever = 2 ^ 32 - 1

abbrev pub wait_nothing : ℕ
wait_nothing = 0

-- os_task_priority_t: the idle level, the range of user tasks, the level of service tasks.
abbrev pub prio_idle : ℕ
prio_idle = 0

abbrev pub prio_lowest : ℕ
prio_lowest = 1

abbrev pub prio_highest : ℕ
prio_highest = 30

abbrev pub prio_max : ℕ
prio_max = 31

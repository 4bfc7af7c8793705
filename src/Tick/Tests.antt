-- ===== src/Tick/Tests.antt =====
-- The theorem on the ticks to plan for, at three sleepers and two running timers.
use ahura_rtos.Task.Tests.{config, cpu, busy_system}
use ahura_rtos.Timer.Tests.{timers}
use ahura_rtos.Blocking.{World}
use ahura_rtos.Tick.Defs.{Clock, expected_idle_ticks_get}
use ahura_rtos.Tick.Idle.{Plans, expected_idle_ticks_get-Plans}

abbrev quiet : World Clock
quiet = record {
  sched = busy_system;
  now = 7;
  object = record { timers = timers; usage_total_ticks = 0; usage_idle_ticks = 0 };
}

expected_idle_ticks_get-Plans_example : Plans quiet (expected_idle_ticks_get config cpu quiet)
expected_idle_ticks_get-Plans_example = expected_idle_ticks_get-Plans config cpu quiet

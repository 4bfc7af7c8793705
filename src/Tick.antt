-- ===== src/Tick.antt =====
-- The tick: kernel/os_tick.c, in a build with timers and the CPU usage. os_tick_count is the `now`
-- of a World. Of the tickless planner, whose sleep is the port's, only the ticks that it may plan
-- for are modelled.
mod Defs
pub mod Idle
mod Tests
pub use Defs.{Clock}
unfoldable pub use Defs.{init, handler, announce, cpu_usage_get, expected_idle_ticks_get}

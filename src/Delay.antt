-- ===== src/Delay.antt =====
-- Delays of a task: kernel/os_delay.c. The cycle counter, by which a caller waits that may not
-- block, is the port's.
mod Defs
pub mod Lasts
mod Tests
unfoldable pub use Defs.{
  ms_to_ticks, cycle_wait_upto, cycle_wait, busy_wait, delay_us, delay_loop, delay_forever,
  delay_ticks, delay_ms,
}
pub use Defs.{Counter}

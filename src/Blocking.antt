-- ===== src/Blocking.antt =====
-- What the blocking calls of kernel/os_sem.c, os_queue.c, os_msg.c, os_event.c, os_mutex.c and
-- os_notify.c have in common: the timeouts of kernel/os_internal.h and the loop in which each of
-- them waits.
-- A call alternates critical sections with waits. While it waits, the rest of the system runs: one
-- function for each wait, which is any function of the state.
mod Defs
pub mod Timeouts
pub mod Loop
pub mod Ends
mod Tests
unfoldable pub use Defs.{
  timeout_to_ticks, ticks_from_ms, wait_remaining, wait_loop, try_later, nonblocking,
}
pub use Defs.{can_block, World, Verdict, Pause, done, wait}

-- ===== src/Delta.antt =====
-- Delta lists, as os_task.c keeps its sleepers (kernel/os_task.c, os_task_delay_list) and
-- os_timer.c its running timers (kernel/os_timer.c, os_timer_running_list): objects in the order
-- in which they fall due, each with the ticks that it waits after the one in front.
-- The list is the sequence of the objects' numbers, the ticks are a field of every object.
mod Defs
pub mod Due
pub mod Span
pub mod Finite
pub use Defs.{Deltas, Expired}
unfoldable pub use Defs.{insert_walk, insert, remove, expire}

-- ===== src/Log.antt =====
-- The log: kernel/os_log.c, a ring of bytes between the tasks that log and the task that hands the
-- bytes out. OS_CONFIG_LOG_BUFFER_SIZE and OS_CONFIG_LOG_LINE_MAX are arguments, and so is what
-- snprintf leaves in a line.
mod Defs
pub mod Ring
pub mod Stream
mod Tests
pub use Defs.{Log}
unfoldable pub use Defs.{put, queue, write, chunk_length, advance, notice_taken, dropped_get}

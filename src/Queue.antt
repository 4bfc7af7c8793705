-- ===== src/Queue.antt =====
-- Message queues of fixed-size items: kernel/os_queue.c, for a queue and an item that are not NULL.
-- The bytes of the buffer are a function of their offset, and the waiter lists are the scheduler's,
-- by their numbers.
mod Defs
pub mod Ring
pub mod Fifo
pub mod Ends
mod Tests
pub use Defs.{Queue, Mode, normal, overwrite, Receiver}
unfoldable pub use Defs.{
  put, get, send_pass, send_resume, send, receive_pass, receive, mode_set, count_get, free_get,
  bind_buffer, init_dynamic, cleanup,
}

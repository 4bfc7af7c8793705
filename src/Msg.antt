-- ===== src/Msg.antt =====
-- Message buffers for messages of any length: kernel/os_msg.c, for a buffer that is not NULL.
-- The bytes of the buffer are a function of their offset, and the waiter lists are the scheduler's,
-- by their numbers.
mod Defs
pub mod Stream
pub mod Messages
pub mod Fifo
pub mod Short
pub mod Ends
mod Tests
pub use Defs.{Msg, Receiver}
unfoldable pub use Defs.{
  put, get, send_pass, send, receive_pass, receive, count_get, free_get, peek_size, init_dynamic,
  cleanup,
}

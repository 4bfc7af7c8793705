-- ===== src/Sem.antt =====
-- Counting semaphores: kernel/os_sem.c, for a semaphore that is not NULL.
-- The waiters of a semaphore are one of the scheduler's waiter lists; the semaphore has its number.
mod Defs
pub mod Conserves
pub mod Consistent
pub mod System
pub mod Ends
mod Tests
pub use Defs.{Sem}
unfoldable pub use Defs.{init, give, take_pass, take}

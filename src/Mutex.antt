-- ===== src/Mutex.antt =====
-- Mutexes with priority inheritance: kernel/os_mutex.c, for a mutex that is not NULL, with the
-- assertions off. A mutex is a number; what it holds is part of the scheduler's state, where
-- kernel/os_task_mutex.c reads it.
mod Defs
pub mod Exclusion
pub mod Ends
mod Tests
unfoldable pub use Defs.{init, lock_pass, lock_resume, lock, unlock}

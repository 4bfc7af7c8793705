-- ===== src/Task/Consistent.antt =====
-- The agreement between the task control blocks and the scheduler's lists, which every operation
-- of kernel/os_task.c relies on, and that the operations keep it.
mod Defs
pub mod Moves
pub mod Waiters
pub mod Priority
pub mod Chain
pub mod Unlink
pub mod Wake
pub mod Tick
pub mod Block
pub mod Life
pub mod Switch
pub mod Wakes
pub mod Matches
pub mod Frame
pub mod Owner
pub mod Depth
pub mod Select
pub mod Boot
pub use Defs.*

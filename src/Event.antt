-- ===== src/Event.antt =====
-- Event groups of 32 bits: kernel/os_event.c, for a group and a matched_bits that are not NULL.
-- The waiters of a group are one of the scheduler's waiter lists; the group has its number.
mod Defs
mod Conditions
pub mod Wakes
pub mod Waits
mod Tests
pub use Defs.{Event, Waiter}
unfoldable pub use Defs.{init, set_bits, clear_bits, wait_pass, wait_resume, wait_bits}

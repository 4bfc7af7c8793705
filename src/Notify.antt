-- ===== src/Notify.antt =====
-- Task notifications: kernel/os_notify.c. The mailbox of a task, a field of its control block, is
-- a function of the block's number.
mod Defs
pub mod Mailbox
mod Tests
pub use Defs.{Slots, Waiter}
unfoldable pub use Defs.{give, wait_pass, wait_resume, wait_for}

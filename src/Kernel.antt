-- ===== src/Kernel.antt =====
-- The scheduler lock of kernel/os_kernel.c.
mod Defs
pub mod Lock
mod Tests
unfoldable pub use Defs.{lock, unlock, is_locked}
pub use Defs.{request_switch}

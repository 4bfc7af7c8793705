-- ===== src/Mem.antt =====
-- The memory allocator: kernel/os_mem.c, on a target with 32-bit addresses.
mod Defs
pub mod Cover
mod Walks
mod Blocks
pub mod Allocator
pub mod Start
mod Tests
pub use Defs.{Layout, Heap}
unfoldable pub use Defs.{alloc, free, free_get, watermark_get}

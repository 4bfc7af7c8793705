-- ===== src/Links.antt =====
-- Intrusive doubly linked lists: kernel/os_list.c, for a list and nodes that are not NULL.
-- A node is a number, and the link fields of all nodes are functions of it.
mod Defs
pub mod Order
mod Fields
mod Edits
mod Keeps
mod Spares
pub mod Refines
mod Tests
pub use Defs.{Links}
unfoldable pub use Defs.{init, is_empty, push_back, pop_front, remove, insert_before}

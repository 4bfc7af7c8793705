-- ===== src/Task.antt =====
-- The task subsystem: kernel/os_task.c with kernel/os_task_internal.h, and the priority
-- inheritance of kernel/os_task_mutex.c, which calls it and is called by it.
-- A task control block is a number: the slots of os_task_table come first, and os_task_idle_tcb[c]
-- is the number of slots plus c. A field of os_task_tcb_t is a function of that number. The
-- intrusive lists are sequences of such numbers, and a waiter list or a mutex is a number too.
-- What runs between os_critical_enter and os_critical_exit is one step.
pub mod State
pub mod Port
pub mod Ids
pub mod Queues
pub mod Inherit
pub mod Wait
pub mod Dispatch
pub mod Owner
pub mod Life
pub mod Keeps
pub mod Registry
pub mod Query
pub mod Boot
pub mod Consistent
pub mod System
pub mod Tests
mod Witnesses

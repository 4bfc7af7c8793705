-- ===== src/Lib.antt =====
-- Verification library of the Ahura RTOS kernel, a preemptive real-time kernel in C for one or
-- several cores.
--
-- The parts of the kernel and the files that model them:
--
-- Shared (and its children): Boolean tests, lists, tables, bytes in memory, 32-bit words and their bits;
-- Shared/Circle copies bytes into and out of a ring in two pieces.
-- Links: the intrusive lists, kernel/os_list.c. They implement sequences of nodes, which is how all
-- other modules see a list.
-- Status: status codes, timeouts and priority levels of kernel/os_types.h.
-- Delta: delta lists, in which every entry waits so long after the one before it. os_task.c keeps one
-- for its sleepers (os_task_delay_insert, os_task_delay_remove), os_timer.c one for its timers.
-- Task: the task subsystem, kernel/os_task.c and kernel/os_task_mutex.c. Task/State holds the task
-- table, a function of the number of a control block for each field of os_task_tcb_t; Task/Queues the
-- ready lists and waiter lists; Task/Inherit and Task/Owner priority inheritance; Task/Wait the wait
-- protocol (os_task_wait_begin, os_task_waiters_wake_one and so on); Task/Dispatch the tick and the
-- context switch; Task/Life creation, start, pause and deletion. Task/Consistent proves that each
-- of them keeps the lists and the table in agreement, Task/System puts them together.
-- Blocking: the waits of all kernel objects, kernel/os_internal.h and the loop of os_sem_take.
-- Sem: semaphores, kernel/os_sem.c; Sem/System among all else that the scheduler does. Queue: message queues, kernel/os_queue.c.
-- Event: event groups, kernel/os_event.c; Task/Consistent/Matches says whom
-- os_task_waiters_wake_match wakes.
-- Notify: task notifications, kernel/os_notify.c. Log: the log ring, kernel/os_log.c.
-- Msg: message buffers, kernel/os_msg.c. Msg/Stream reads the ring as bytes in a row, Msg/Messages as
-- messages behind their lengths, Msg/Fifo as a queue.
-- Task/Keeps shows what the list operations leave alone. Mutex: mutexes, kernel/os_mutex.c.
-- Mem: the allocator, kernel/os_mem.c. Mem/Cover reads a free list as a set of addresses, Mem/Walks and
-- Mem/Blocks follow the two walks along it, Mem/Allocator puts them together.
-- Timer: software timers, kernel/os_timer.c. Kernel: the scheduler lock, kernel/os_kernel.c.
-- Tick: the tick, kernel/os_tick.c. Delay: delays, kernel/os_delay.c.
--
-- How they interact. An object such as a semaphore names a waiter list of the scheduler; a blocking
-- call is a pass through its critical section, which either is done or has put the task to wait. What
-- the rest of the system does until the task runs again is an argument of the call (Blocking's Pause).
-- The tick passes time to the sleepers (tick_update) and to the timers (tick_process).
--
-- Conventions. A critical section runs as one step, so the calls that save and restore the interrupt
-- mask and the multicore lock are left out. Control blocks, timers, mutexes and waiter lists are
-- numbers; a list of nodes is a sequence of those numbers. Pointers are not NULL: the tests for it are
-- left out where the model has no NULL. Words of 32 bits keep their wrap-around (Shared/Words).
--
-- Bounds. os_task_unlink and os_task_effective_priority_set call each other; the model nests two calls
-- deep, which is enough in every consistent state. The chain of mutex owners is walked max_depth steps,
-- as in the source. os_task_waiters_wake_all takes the length of its list and one more as fuel. A wait
-- loop runs once for each wait of its list and once more.
--
-- Not modelled: the ports in arch/ and the board support in soc/, which are registers and assembly;
-- stack contents, task names, debugger reports and assertions, which do not change what the kernel
-- does; the sleep of the tickless planner (kernel/os_tick.c), which is built on hardware timers;
-- the text of the log's notice about dropped lines
-- (kernel/os_log.c); kernel/os_critical.c and os_atomic.c; and the start of the kernel in os_kernel.c,
-- of which the files above use no more than stands in their definitions.
pub mod Shared
pub mod Status
pub mod Delta
pub mod Task
pub mod Blocking
pub mod Delay
pub mod Event
pub mod Kernel
pub mod Links
pub mod Log
pub mod Mem
pub mod Msg
pub mod Mutex
pub mod Notify
pub mod Queue
pub mod Sem
pub mod Tick
pub mod Timer

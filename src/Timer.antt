-- ===== src/Timer.antt =====
-- Software timers: kernel/os_timer.c, in a build without the tickless planner. State and Lists hold
-- the timers and their lists, Calls the operations, Registry, Almost and Keeps the lemmas on the
-- registry of running timers, Pending and Expiry what time does, Life what the calls do.
pub mod State
pub mod Lists
pub mod Calls
pub mod Registry
pub mod Almost
pub mod Keeps
pub mod Pending
pub mod Expiry
pub mod Life
pub mod Tests

-- ===== src/Sched.antt =====
-- The entry points of the scheduler in asgn2/kern/sched_ule.c, over its run queues, its scores and its
-- placement.
pub mod Ticks
pub mod Clock
pub mod Choose
pub mod Critical
pub mod Add
pub mod Prio
pub mod Life
pub mod Switch
pub mod Tests

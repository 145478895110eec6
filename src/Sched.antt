-- ===== src/Sched.antt =====
-- os/src/process/scheduler: the run queues of one CPU, and the queue of sleeping tasks.
pub mod Task
pub mod Rt
pub mod Tree
pub mod Cfs
pub mod Deadline
pub mod Sleep

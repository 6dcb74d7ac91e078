-- ===== src/Sched.antt =====
-- kernel/core/sched_core.c: the scheduling policy of one processor.
pub mod State
pub mod Validate
pub mod Run
pub mod Wait
pub mod Links
pub mod Valid
pub mod Push
pub mod Accept
pub mod Start
pub mod Choose
pub mod Revise
pub mod Fifo
pub mod Leave
pub mod Registry
pub mod Enroll
pub mod Reap
pub mod Charge
pub mod Time
pub mod Tick
pub mod Relink
pub mod Sleep
pub mod Wake
pub mod Snapshot
pub mod Report
pub mod Reach
pub mod Fair
mod Tests

-- ===== src/Scheduler.antt =====
-- csrc/runtime/Scheduler.hpp and Scheduler.cpp: the job scheduler of the head node.
pub mod Types
pub mod Jobs
pub mod Allocation
pub mod Tick
mod Tests

-- ===== src/Scheduler/Ownership.antt =====
-- Every reference that the pool counts is held by a request's table, or has been leaked.
pub mod Outcomes
pub mod Queueing
pub mod Books
pub mod Admission
pub mod Eviction
pub mod Enough
pub mod Preemption
pub mod Retirement
pub mod Batched
pub mod Requests
pub mod History

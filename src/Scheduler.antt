-- ===== src/Scheduler.antt =====
-- src/scheduler.h and .cpp: continuous batching with preemption.
pub mod State
pub mod Admit
pub mod Batch
pub mod Calls
pub mod Ownership
pub mod Everywhere
pub mod Checkpoints
pub mod Limits
pub mod Progress
pub mod Fitting

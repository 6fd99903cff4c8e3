-- ===== src/Tests.antt =====
-- Concrete inputs, and the properties at them.
pub mod Samples
pub mod Schedulers
pub mod Caches
pub mod Weights
mod Texts
mod Sampling
mod Engines
mod Requests
mod Forward

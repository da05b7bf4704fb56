-- ===== src/Runtime.antt =====
-- psyexp_net/runtime
pub mod Task
pub mod Session
pub mod Registry
pub mod Scheduler
pub mod Barrier
pub mod Server
pub mod Client
pub mod Registration

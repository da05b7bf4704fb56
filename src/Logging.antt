-- ===== src/Logging.antt =====
-- psyexp_net/logging
pub mod Metrics
pub mod Recorder
pub mod Replay
pub mod Summary

-- ===== src/Runtime/Client.antt =====
-- psyexp_net/runtime/client.py.
pub mod State
pub mod Requests
pub mod Receive
pub mod Lifecycle

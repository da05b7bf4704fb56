-- ===== src/Runtime/Server.antt =====
-- psyexp_net/runtime/server.py: the state, the handlers of client messages, the fan-out of commands,
-- the health of clients, the loop that serves, and how a server begins and ends.
pub mod State
pub mod Commands
pub mod Acks
pub mod Health
pub mod Register
pub mod Handlers
pub mod Invariant
pub mod Lifecycle

-- ===== src/Protocol.antt =====
-- psyexp_net/protocol
pub mod Ack
pub mod Message
pub mod Versioning
pub mod Codec

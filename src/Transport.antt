-- ===== src/Transport.antt =====
-- The transports of psyexp_net/transport: what base.py says of them, and the one in memory.
pub mod Memory
pub mod Zmq
use psyexp_net.Prelude.{String, Option}
use psyexp_net.Exec.{Exec}
use psyexp_net.Protocol.Message.{Message}
use psyexp_net.Value.{Fields}

-- base.py's ReceivedMessage: an event of a transport.
pub record ReceivedMessage (F : Type 0) : Type 0 where
  pub peer_id : String
  pub message : Message F
  pub channel : String

-- base.py's TransportBackend: what a server and a client use of a transport that has this state. A
-- `recv` is one attempt, and `none` when its timeout has passed.
pub record TransportBackend (S F : Type 0) : Type 0 where
  pub start : Exec S Unit
  pub stop : Exec S Unit
  pub send : (peer_id : String) → Message F → Exec S Unit
  pub broadcast : Message F → Exec S Unit
  pub recv : Exec S (Option (ReceivedMessage F))
  pub get_metrics : S → Fields F

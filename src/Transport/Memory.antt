-- ===== src/Transport/Memory.antt =====
-- psyexp_net/transport/memory.py: the transport within one process. The hub holds one queue for the
-- server and one for each client; a `recv` of an empty queue is `none`, as after its timeout.
pub mod Laws
pub mod Backends
pub mod Network
use psyexp_net.Prelude.{
  String, ℕ, ◌+◌, Bool, Option, none, some, List, [], ◌∷◌, ◌++◌, map, length, string_eq,
}
use psyexp_net.Prelude.Dict
use psyexp_net.Prelude.Dict.{Dict}
use psyexp_net.Protocol.Message.{Message}
use psyexp_net.Transport.{ReceivedMessage}

-- asyncio.Queue without a bound, oldest first
abbrev pub Queue : Type 0 → Type 0
Queue F = List (ReceivedMessage F)

pub record InMemoryHub (F : Type 0) : Type 0 where
  pub server_queue : Queue F
  pub client_queues : Dict String (Queue F)

-- `_EndpointMetrics`
pub record EndpointMetrics : Type 0 where
  pub sent : ℕ
  pub received : ℕ
  pub broadcast_sent : ℕ

module _ {F : Type 0} where
  abbrev pub queue_or_new : Option (Queue F) → Queue F
  queue_or_new none = []
  queue_or_new (some q) = q

  -- The queue of a client, which is there afterwards.
  unfoldable pub ensure_client : String → InMemoryHub F → InMemoryHub F
  ensure_client client_id hub = record hub {
    client_queues =
        Dict.put client_id (queue_or_new (Dict.get client_id hub.client_queues)) hub.client_queues;
  }

  unfoldable pub remove_client : String → InMemoryHub F → InMemoryHub F
  remove_client client_id hub = record hub {
    client_queues = Dict.remove client_id hub.client_queues;
  }

  abbrev pub put : ReceivedMessage F → Queue F → Queue F
  put event q = q ++ event ∷ []

  -- `InMemoryServerTransport.send`
  unfoldable pub server_send :
      String → Message F → InMemoryHub F → EndpointMetrics → InMemoryHub F × EndpointMetrics
  server_send peer_id message hub metrics = (
    record hub {
      client_queues =
          Dict.put peer_id
            (put (record { peer_id = "server"; message = message; channel = "control" })
              (queue_or_new (Dict.get peer_id hub.client_queues)))
            hub.client_queues;
    },
    record metrics { sent = metrics.sent + 1 },
  )

  -- `InMemoryServerTransport.broadcast`
  unfoldable pub server_broadcast :
      Message F → InMemoryHub F → EndpointMetrics → InMemoryHub F × EndpointMetrics
  server_broadcast message hub metrics = (
    record hub {
      client_queues =
          map
            (λ e. (
              e.0,
              put (record { peer_id = "server"; message = message; channel = "broadcast" }) e.1,
            ))
            hub.client_queues;
    },
    record metrics { broadcast_sent = metrics.broadcast_sent + length hub.client_queues },
  )

  -- `InMemoryServerTransport.recv`
  unfoldable pub server_recv :
      InMemoryHub F → EndpointMetrics → Option (ReceivedMessage F) × InMemoryHub F × EndpointMetrics
  server_recv hub metrics = elim hub.server_queue [
    | [] ↦ (none, hub, metrics)
    | event ∷ rest ↦ (
      some event,
      record hub { server_queue = rest },
      record metrics { received = metrics.received + 1 },
    )
  ]

  -- `InMemoryClientTransport.send`
  unfoldable pub client_send :
      (client_id : String)
      → Message F
      → InMemoryHub F
      → EndpointMetrics
      → InMemoryHub F × EndpointMetrics
  client_send client_id message hub metrics = (
    record hub {
      server_queue =
          put (record { peer_id = client_id; message = message; channel = "control" })
            hub.server_queue;
    },
    record metrics { sent = metrics.sent + 1 },
  )

  -- `InMemoryClientTransport.recv`
  unfoldable pub client_recv :
      (client_id : String)
      → InMemoryHub F
      → EndpointMetrics
      → Option (ReceivedMessage F) × InMemoryHub F × EndpointMetrics
  unfolding ensure_client
  client_recv client_id hub metrics = elim (Dict.get client_id hub.client_queues) [
    | some (event ∷ rest) ↦ (
      some event,
      record hub { client_queues = Dict.put client_id rest hub.client_queues },
      record metrics { received = metrics.received + 1 },
    )
    | _ ↦ (none, ensure_client client_id hub, metrics)
  ]

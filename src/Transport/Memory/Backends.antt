-- ===== src/Transport/Memory/Backends.antt =====
-- The two ends of psyexp_net/transport/memory.py as transports, and a network of them on one hub.
use psyexp_net.Prelude.{String, string_eq}
use psyexp_net.Config.Mapping.{nat}
use psyexp_net.Errors.{ok}
use psyexp_net.Exec.{pure, modify}
use psyexp_net.Transport.{TransportBackend}
use psyexp_net.Transport.Memory.{
  InMemoryHub, EndpointMetrics, ensure_client, remove_client, server_send, server_broadcast,
  server_recv, client_send, client_recv,
}
use psyexp_net.Value.{Fields, field, end}

-- An end: the hub that it shares, and its metrics.
abbrev pub Endpoint : Type 0 → Type 0
Endpoint F = InMemoryHub F × EndpointMetrics

module _ {F : Type 0} where
  -- what `get_metrics` returns, here and of zmq_lan.py
  abbrev pub counters : EndpointMetrics → Fields F
  counters metrics = field "sent" (nat metrics.sent) (
      field "received" (nat metrics.received)
        (field "broadcast_sent" (nat metrics.broadcast_sent) end))

  -- `get_metrics`, which both ends have
  unfoldable pub get_metrics : Endpoint F → Fields F
  get_metrics (hub, metrics) = counters metrics

  -- `InMemoryServerTransport`
  unfoldable pub server_backend : TransportBackend (Endpoint F) F
  unfolding get_metrics
  server_backend = record {
    start = pure tt;
    stop = pure tt;
    send = λ peer_id message (hub, metrics). (ok tt, server_send peer_id message hub metrics);
    broadcast = λ message (hub, metrics). (ok tt, server_broadcast message hub metrics);
    recv = λ (hub, metrics).
        let (event, hub', metrics') = server_recv hub metrics in (ok event, (hub', metrics'));
    get_metrics = get_metrics;
  }

  -- `InMemoryClientTransport.broadcast` is a `send` to the server.
  unfoldable pub client_backend : (client_id : String) → TransportBackend (Endpoint F) F
  unfolding get_metrics
  client_backend client_id = record {
    start = modify (λ (hub, metrics). (ensure_client client_id hub, metrics));
    stop = modify (λ (hub, metrics). (remove_client client_id hub, metrics));
    send = λ peer_id message (hub, metrics). (ok tt, client_send client_id message hub metrics);
    broadcast = λ message (hub, metrics). (ok tt, client_send client_id message hub metrics);
    recv = λ (hub, metrics).
        let (event, hub', metrics') = client_recv client_id hub metrics in
        (ok event, (hub', metrics'));
    get_metrics = get_metrics;
  }

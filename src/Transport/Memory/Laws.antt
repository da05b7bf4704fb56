-- ===== src/Transport/Memory/Laws.antt =====
-- What the queues of psyexp_net/transport/memory.py deliver.
use psyexp_net.Prelude.{
  eq_iff, beq_self, ◌==◌, if◌then◌else◌, String, ℕ, zero, suc, length, Option, none, some, List, [],
  ◌∷◌, ◌++◌, ◌≡◌, refl, arith, inl, inr, Option-cases, append-nil, append_assoc, map, string_eq,
}
use psyexp_net.Prelude.Dict
use psyexp_net.Protocol.Message.{Message}
use psyexp_net.Transport.{ReceivedMessage}
use psyexp_net.Transport.Memory.{
  Queue, InMemoryHub, EndpointMetrics, queue_or_new, server_send, client_recv,
}

abbrev pub arrived : {F : Type 0} → Option (ReceivedMessage F) → List (Message F) → List (Message F)
arrived none ms = ms
arrived (some e) ms = e.message ∷ ms

module _ {F : Type 0} where
  -- `server_send` of several messages to a client.
  unfoldable pub send_all :
      String → List (Message F) → InMemoryHub F → EndpointMetrics → InMemoryHub F × EndpointMetrics
  send_all peer_id [] hub metrics = (hub, metrics)
  send_all peer_id (m ∷ ms) hub metrics =
      let (hub', metrics') = server_send peer_id m hub metrics in send_all peer_id ms hub' metrics'

  -- `client_recv`, `n` times, with the messages that arrived.
  unfoldable pub recv_many :
      ℕ → (client_id : String) → InMemoryHub F → EndpointMetrics → List (Message F) × InMemoryHub F
  recv_many zero client_id hub metrics = ([], hub)
  recv_many (suc n) client_id hub metrics =
      let (event, hub', metrics') = client_recv client_id hub metrics in
      let (messages, hub'') = recv_many n client_id hub' metrics' in (arrived event messages, hub'')

  abbrev pub control : Message F → ReceivedMessage F
  control m = record { peer_id = "server"; message = m; channel = "control" }

  abbrev pub queue_at : String → InMemoryHub F → Queue F
  queue_at k hub = queue_or_new (Dict.get k hub.client_queues)

  queue-send :
      (k j : String) (m : Message F) (hub : InMemoryHub F) (metrics : EndpointMetrics)
      → queue_at j (server_send k m hub metrics).0
        ≡ (if k == j then queue_at j hub ++ control m ∷ [] else queue_at j hub)
  unfolding server_send
  queue-send k j m hub metrics = rw Dict.get-put (ground (arith, eq_iff k j))

  queue-send_all :
      (k : String) (ms : List (Message F)) (hub : InMemoryHub F) (metrics : EndpointMetrics)
      → (queue_at k (send_all k ms hub metrics).0 ≡ queue_at k hub ++ map control ms)
        × ((j : String) → (k ≡ j → ⊥) → queue_at j (send_all k ms hub metrics).0 ≡ queue_at j hub)
  unfolding send_all
  queue-send_all k [] hub metrics = (simp append-nil, λ j ne. refl)
  queue-send_all k (m ∷ ms) hub metrics =
      let rest =
        queue-send_all k ms (server_send k m hub metrics).0 (server_send k m hub metrics).1 in
      (
        rw (rest.0, queue-send k k m hub metrics, beq_self k)
            (append_assoc (queue_at k hub) (control m ∷ []) (map control ms)),
        λ j ne. rw (rest.1 j ne, queue-send k j m hub metrics) (ground (arith, eq_iff k j)),
      )

  recv-queue :
      (k : String) (e : ReceivedMessage F) (es : Queue F) (hub : InMemoryHub F)
      (metrics : EndpointMetrics)
      → queue_at k hub ≡ e ∷ es
      → ((client_recv k hub metrics).0 ≡ some e) × (queue_at k (client_recv k hub metrics).1 ≡ es)
  unfolding client_recv
  recv-queue k e es hub metrics h = elim (Option-cases (Dict.get k hub.client_queues)) [
    | inl absent ↦ cc (rw absent at h)
    | inr (q, found) ↦
        let q-eq = rw found at h in rw (client_recv, found, q-eq) (refl, rw Dict.get-put_self)
  ]

  queue-recv_many :
      (k : String) (ms : List (Message F)) (hub : InMemoryHub F) (metrics : EndpointMetrics)
      → queue_at k hub ≡ map control ms
      → ((recv_many (length ms) k hub metrics).0 ≡ ms)
        × (queue_at k (recv_many (length ms) k hub metrics).1 ≡ [])
  unfolding recv_many
  queue-recv_many k [] hub metrics h = (refl, h)
  queue-recv_many k (m ∷ ms) hub metrics h =
      let (first, left) = recv-queue k (control m) (map control ms) hub metrics h in
      let rest =
        queue-recv_many k ms (client_recv k hub metrics).1 (client_recv k hub metrics).2 left in
      (rw (first, rest.0), rest.1)

  -- What the server sends to a client whose queue is empty, or who has none yet, is what the client
  -- receives: every message, in order, and nothing is left behind it. No other client's queue
  -- changes.
  pub recv_many-send_all :
      (k : String) (ms : List (Message F)) (hub : InMemoryHub F) (server client : EndpointMetrics)
      → queue_at k hub ≡ []
      → ((recv_many (length ms) k (send_all k ms hub server).0 client).0 ≡ ms)
        × (queue_at k (recv_many (length ms) k (send_all k ms hub server).0 client).1 ≡ [])
        × ((j : String) → (k ≡ j → ⊥) → queue_at j (send_all k ms hub server).0 ≡ queue_at j hub)
  recv_many-send_all k ms hub server client empty =
      let sent = queue-send_all k ms hub server in
      let (all, left) =
        queue-recv_many k ms (send_all k ms hub server).0 client (rw (sent.0, empty)) in
      (all, left, sent.1)

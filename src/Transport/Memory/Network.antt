-- ===== src/Transport/Memory/Network.antt =====
-- A server and clients of psyexp_net/transport/memory.py on one hub, and their calls in any order.
pub mod Delivery
use psyexp_net.Prelude.{
  ap, sym, ◌∙◌, ◌⊎◌, false, String, Bool, true, not, Option, none, some, List, [], ◌∷◌, ◌++◌, map,
  ◌==◌, ◌&&◌, ◌≡◌, refl, inl, inr, arith, Bool-cases, Option-cases, append-nil, append_assoc,
  eq_iff, string_eq, if◌then◌else◌,
}
use psyexp_net.Prelude.Dict
use psyexp_net.Prelude.Dict.{Dict}
use psyexp_net.Errors.{Result, ok}
use psyexp_net.Exec.{Exec, pure, ◌>>◌}
use psyexp_net.Protocol.Message.{Message}
use psyexp_net.Transport.{ReceivedMessage}
use psyexp_net.Transport.Memory.{
  Queue, InMemoryHub, EndpointMetrics, ensure_client, remove_client, server_send, server_broadcast,
  server_recv, client_send, client_recv,
}
use psyexp_net.Transport.Memory.Backends.{Endpoint, server_backend, client_backend}

-- A call of an end's method.
pub data Operation (F : Type 0) : Type 0 where
  server_sends : String → Message F → Operation F
  server_broadcasts : Message F → Operation F
  server_receives : Operation F
  client_starts client_stops client_receives : (client_id : String) → Operation F
  client_sends : (client_id : String) → Message F → Operation F

-- One hub, and the metrics of the server and of each client.
pub record Network (F : Type 0) : Type 0 where
  pub hub : InMemoryHub F
  pub server : EndpointMetrics
  pub clients : String → EndpointMetrics

module _ {F : Type 0} where
  abbrev at_server : {A : Type 0} → Exec (Endpoint F) A → Exec (Network F) A
  at_server m n = let (r, e) = m (n.hub, n.server) in (r, record n { hub = e.0; server = e.1 })

  abbrev at_client : {A : Type 0} → String → Exec (Endpoint F) A → Exec (Network F) A
  at_client k m n =
      let (r, e) = m (n.hub, n.clients k) in
      (r, record n { hub = e.0; clients = λ j. if j == k then e.1 else n.clients j })

  unfoldable pub perform : Operation F → Exec (Network F) (Option (ReceivedMessage F))
  unfolding server_backend client_backend
  perform (server_sends k m) = at_server (server_backend.send k m) >> pure none
  perform (server_broadcasts m) = at_server (server_backend.broadcast m) >> pure none
  perform server_receives = at_server server_backend.recv
  perform (client_starts k) = at_client k (client_backend k).start >> pure none
  perform (client_stops k) = at_client k (client_backend k).stop >> pure none
  perform (client_receives k) = at_client k (client_backend k).recv
  perform (client_sends k m) = at_client k ((client_backend k).send "server" m) >> pure none

  -- what a call brings to the client `k`
  abbrev pub taken : String → Operation F → Result (Option (ReceivedMessage F)) → Queue F
  taken k (client_receives j) (ok (some e)) = if j == k then e ∷ [] else []
  taken k _ _ = []

  -- The calls in their order: what the client `k` has received, and the network.
  unfoldable pub run : String → List (Operation F) → Network F → Queue F × Network F
  unfolding perform
  run k [] n = ([], n)
  run k (o ∷ os) n =
      let (r, n') = perform o n in let (es, n'') = run k os n' in (taken k o r ++ es, n'')

  -- what a call addresses to the client `k`
  abbrev pub addressed : String → Operation F → Queue F
  addressed k (server_sends j m) =
      if j == k then record { peer_id = "server"; message = m; channel = "control" } ∷ [] else []
  addressed k (server_broadcasts m) =
      record { peer_id = "server"; message = m; channel = "broadcast" } ∷ []
  addressed k _ = []

  abbrev pub all_addressed : String → List (Operation F) → Queue F
  all_addressed k [] = []
  all_addressed k (o ∷ os) = addressed k o ++ all_addressed k os

  -- the client `k` is not stopped
  abbrev pub stays : String → List (Operation F) → Bool
  stays k [] = true
  stays k (client_stops j ∷ os) = not (j == k) && stays k os
  stays k (o ∷ os) = stays k os

-- ===== src/Tests/Delivering.antt =====
-- A network in one process at concrete inputs: psyexp_net/transport/memory.py.
use psyexp_net.Prelude.{ℕ, some, List, [], ◌∷◌, ◌++◌, ◌≡◌, refl, string_eq}
use psyexp_net.Prelude.Dict
use psyexp_net.Enums.{MessageType}
use psyexp_net.Tests.World.{nat_floats, message}
use psyexp_net.Transport.Memory.{Queue, EndpointMetrics}
use psyexp_net.Transport.Memory.Network.{
  Operation, server_sends, server_broadcasts, client_starts, client_stops, client_receives,
  client_sends, Network, run, all_addressed,
}
use psyexp_net.Transport.Memory.Network.Delivery.{run-all_addressed}
use psyexp_net.Value.{end}

abbrev zeros : EndpointMetrics
zeros = record { sent = 0; received = 0; broadcast_sent = 0 }

-- The client "a" is there.
abbrev network : Network ℕ
network = record {
  hub = record { server_queue = []; client_queues = ("a", []) ∷ [] };
  server = zeros;
  clients = λ _. zeros;
}

-- Another client comes and goes, and a message to "a" is left in its queue.
abbrev calls : List (Operation ℕ)
calls =
    client_starts "b"
    ∷ server_sends "a" (message MessageType.ping end)
    ∷ client_receives "a"
    ∷ server_broadcasts (message MessageType.marker end)
    ∷ client_sends "a" (message MessageType.pong end)
    ∷ client_receives "b"
    ∷ client_stops "b"
    ∷ client_receives "a"
    ∷ server_sends "a" (message MessageType.ping end)
    ∷ []

run-all_addressed_example :
    (left : Queue ℕ) × (Dict.get "a" (run "a" calls network).1.hub.client_queues ≡ some left)
    × ((run "a" calls network).0 ++ left ≡ [] ++ all_addressed "a" calls)
unfolding Dict.get
run-all_addressed_example = run-all_addressed "a" calls network [] refl refl

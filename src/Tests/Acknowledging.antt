-- ===== src/Tests/Acknowledging.antt =====
-- The ACKs and the health of clients of psyexp_net/runtime/server.py at a concrete server.
use mathlib.Core.Option
use psyexp_net.Prelude.{
  String, ℕ, none, some, [], ◌∷◌, ltb, length, ◌≡◌, refl, arith, string_eq, pair_eq, if◌then◌else◌,
}
use psyexp_net.Prelude.Dict
use psyexp_net.Prelude.Dict.{Dict}
use psyexp_net.Enums.{MessageType}
use psyexp_net.Errors.{ok}
use psyexp_net.Exec.{for_each}
use psyexp_net.Protocol.Ack.{PendingAck, resolved}
use psyexp_net.Protocol.Message.{Message, create, make_ack}
use psyexp_net.Runtime.Registry.Laws.{IsKeyed}
use psyexp_net.Runtime.Server.Acks.{handle_ack}
use psyexp_net.Runtime.Server.Acks.Answering.{handle_ack-make_ack}
use psyexp_net.Runtime.Server.Acks.Completion.{account, account_completes}
use psyexp_net.Runtime.Server.Health.{refresh_client_health}
use psyexp_net.Runtime.Server.Health.Laws.{judged_at, status_in, refresh_client_health_lem}
use psyexp_net.Runtime.Server.State.{Server, CommandGroup}
use psyexp_net.Tests.World.{nat_floats, server, message}
use psyexp_net.Value.{end}

-- The entry of a message "m1" to the client "a".
abbrev entry : PendingAck ℕ
entry = record {
  msg_id = "m1";
  peer_id = "a";
  created_at = 0;
  timeout_at = 5;
  retries = 0;
  future = some 0;
}

abbrev awaiting : Server ℕ
awaiting = record server {
  pending_acks = record { timeout_ms = 800; pending = (("m1", "a"), entry) ∷ [] };
}

abbrev command : Message ℕ
command = message MessageType.session_start end

found : Dict.get (command.msg_id, "a") awaiting.pending_acks.pending ≡ some entry
unfolding Dict.get create
found = refl

handle_ack-make_ack_example :
    let ack = make_ack 4 4 "k1" command "a" (some 5) in
    let o = handle_ack "a" ack awaiting in
    (o.0 ≡ ok tt)
    × (o.1.pending_acks.pending ≡ Dict.remove (command.msg_id, "a") awaiting.pending_acks.pending)
    × (o.1.env.futures 0 ≡ resolved ack.payload)
handle_ack-make_ack_example =
    handle_ack-make_ack "a" 4 4 "k1" command "a" (some 5) awaiting found refl refl

-- A command to two clients.
abbrev group : CommandGroup ℕ
group = record {
  msg_type = "SESSION_START";
  trial_id = none;
  expected_peers = "a" ∷ "b" ∷ [];
  apply_times = [];
}

abbrev commanding : Server ℕ
commanding = record server { command_groups = ("c1", group) ∷ [] }

abbrev times : Dict String ℕ
times = ("b", 7) ∷ ("a", 9) ∷ []

account_completes_example :
    ((for_each (account "c1") times commanding).0 ≡ ok tt)
    × (Option.map
          (λ g'. length g'.apply_times)
          (Dict.get "c1" (for_each (account "c1") times commanding).1.command_groups)
        ≡ (if ltb (length times) (length group.expected_peers) then some (length times) else none))
unfolding Dict.get
account_completes_example =
    account_completes "c1" times group commanding refl refl (refl, (refl, tt)) (omega arith)
      (omega arith)

server-IsKeyed : IsKeyed server.registry
unfolding Dict.get
server-IsKeyed = record { distinct = (refl, tt); keyed = (refl, tt) }

refresh_client_health_example :
    ((refresh_client_health server).0 ≡ ok tt)
    × ((id : String)
        → status_in (Dict.get id (refresh_client_health server).1.registry)
          ≡ Option.map (judged_at server) (Dict.get id server.registry))
refresh_client_health_example = refresh_client_health_lem server server-IsKeyed

-- ===== src/Tests/Commanding.antt =====
-- A command of psyexp_net/runtime/server.py at concrete inputs.
use psyexp_net.Prelude.{ℕ, true, none, List, ◌++◌, map, All, ◌≡◌, refl}
use psyexp_net.Enums.{MessageType, message_type_value}
use psyexp_net.Errors.{ok}
use psyexp_net.Runtime.Registry.{all}
use psyexp_net.Runtime.Server.Commands.{send_to_all}
use psyexp_net.Runtime.Server.Commands.Laws.{send_to_all_lem}
use psyexp_net.Runtime.Server.Commands.Posting.{
  Sent, IsCommand, to_client, awaited, command, entered,
}
use psyexp_net.Tests.World.{nat_floats, server}
use psyexp_net.Value.{str, Fields, field, end}
use psyexp_net.Value.Json.{is_json}

abbrev opening : Fields ℕ
opening = field "session_id" (str "s") end

send_to_all_example :
    let o = send_to_all MessageType.session_start opening true none server in
    (rows : List (Sent ℕ)) × (map (λ r. r.client) rows ≡ all server.registry)
    × All
        (λ r.
          IsCommand
            (message_type_value MessageType.session_start)
            (command true opening server)
            true
            none
            r.message)
        rows
    × (o.1.env.outbox ≡ server.env.outbox ++ map to_client rows)
    × (o.0 ≡ ok (awaited true rows))
    × (o.1.pending_acks ≡ entered true rows server.pending_acks)
    × (o.1.registry ≡ server.registry)
unfolding is_json
send_to_all_example =
    send_to_all_lem MessageType.session_start opening true none server (λ o. refl) refl

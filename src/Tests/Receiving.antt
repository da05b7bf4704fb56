-- ===== src/Tests/Receiving.antt =====
-- The client of psyexp_net/runtime/client.py at concrete inputs.
use psyexp_net.Prelude.{ℕ, true, false, none, some, List, [], ◌∷◌, ◌++◌, ◌≡◌, refl, arith}
use psyexp_net.Config.{default_config}
use psyexp_net.Enums.{MessageType}
use psyexp_net.Errors.{ok, err}
use psyexp_net.Protocol.Message.{Message}
use psyexp_net.Runtime.Client.Receive.{Event, failed, event, receive, recv_loop}
use psyexp_net.Runtime.Client.Receive.Reconnect.{Reconnects, recv_loop-failed}
use psyexp_net.Runtime.Client.Receive.Laws.{receive-receive}
use psyexp_net.Runtime.Client.State.{Client, awaited, sent}
use psyexp_net.Runtime.Session
use psyexp_net.Tests.World.{nat_floats, tally, message}
use psyexp_net.Value.{str, null, item, end}

-- A client that runs, with one handler for the start of a session.
abbrev client : Client ℕ
client = record {
  config = default_config;
  role = "stimulus";
  client_id = "a";
  identity = record {
    client_id = "a";
    role = "stimulus";
    instance_uuid = "i";
    client_secret = none;
  };
  status = "CONNECTED";
  offset_ms = 0;
  rtt_ms = 0;
  session = Session.init;
  registry_snapshot = [];
  negotiated_protocol_version = "1.0";
  negotiated_capabilities = [];
  handlers = ("SESSION_START", 7 ∷ []) ∷ [];
  dedupe = record { max_size = 512; items = [] };
  responses = [];
  running = true;
  closing = false;
  reconnect_locked = false;
  env = record {
    clock = λ n. n;
    ticks = 0;
    uuids = λ n. tally n "";
    issued = 0;
    futures = λ _. awaited;
    next_future = 0;
    actions = [];
    slept = [];
    behaviour = λ _ _. ok tt;
    handled = [];
    show = λ _. "";
    refuses = λ _. none;
  };
}

abbrev opening : Message ℕ
opening = record (message MessageType.session_start end) {
  header = record (message MessageType.session_start end).header { requires_ack = true };
}

receive-receive_example :
    let c1 = (receive opening client).1 in
    let again = receive opening c1 in
    (again.1.env.handled ≡ c1.env.handled)
    × (again.1.session ≡ c1.session)
    × (again.1.status ≡ c1.status)
    × (again.1.responses ≡ c1.responses)
    × ((ack : Message ℕ) × (ack.msg_type ≡ "ACK")
        × (ack.sender_id ≡ c1.client_id)
        × (ack.reply_to ≡ some opening.msg_id)
        × (item "reply_to" ack.payload ≡ some (str opening.msg_id))
        × (item "receiver_id" ack.payload ≡ some (str c1.client_id))
        × (item "apply_ts" ack.payload ≡ some null)
        × (again.0 ≡ elim (c1.env.refuses (sent ack)) [ none ↦ ok tt | some e ↦ err e ])
        × (again.1.env.actions ≡ elim (c1.env.refuses (sent ack)) [
          | none ↦ c1.env.actions ++ sent ack ∷ []
          | some e ↦ c1.env.actions
        ]))
receive-receive_example = receive-receive opening client refl (omega arith)

abbrev later : List (Event ℕ)
later = event (record { peer_id = "server"; message = opening; channel = "control" }) ∷ failed ∷ []

-- A transport that starts again and takes the REGISTER.
recv_loop-failed_example : Reconnects client (recv_loop (failed ∷ later) client)
recv_loop-failed_example = recv_loop-failed later client refl refl refl refl

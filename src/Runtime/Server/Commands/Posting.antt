-- ===== src/Runtime/Server/Commands/Posting.antt =====
-- One message of a command, `_send_control` of psyexp_net/runtime/server.py: what is sent and awaited.
use psyexp_net.Prelude.{
  String, ℕ, ◌+◌, Bool, true, false, Option, none, some, List, [], ◌∷◌, ◌++◌, map, ◌≡◌, refl, ap,
  inl, inr, ◌∙◌, Option-cases, if◌then◌else◌,
}
use psyexp_net.Enums.{Priority, priority_value}
use psyexp_net.Errors.{ok}
use psyexp_net.Exec.{Exec, ◌>>=◌, ◌>>◌, pure}
use psyexp_net.Protocol.Ack
use psyexp_net.Protocol.Ack.{PendingAckManager}
use psyexp_net.Runtime.Server.State.Recording.{
  transport_send-ok, record_row-ok, is_json-to_dict, sent_to, with_row,
}
use psyexp_net.Value.Json.{is_json, fields_json}
use psyexp_net.Floats.{Floats}
use psyexp_net.Protocol.Message.{Message, create}
use psyexp_net.Runtime.Registry.{ClientInfo}
use psyexp_net.Runtime.Server.Commands.{command_of, track, expect_ack, send_control}
use psyexp_net.Runtime.Server.State.{
  Server, Outgoing, unicast, monotonic, new_uuid, create_future, transport_send, make_message,
  increment, record_row,
}
use psyexp_net.Value.{Fields, field, end, obj, str, put_field}

-- A message of a command: the client that it goes to, and, if ACKs are required, the future of its ACK
-- and the time at which its pending entry is made.
pub record Sent (F : Type 0) : Type 0 where
  pub client : ClientInfo F
  pub message : Message F
  pub future : ℕ
  pub at : F

module _ {F : Type 0} where
  -- The message is this command, made by the server.
  pub record IsCommand (t : String) (payload : Fields F) (acked : Bool) (trial : Option String)
      (m : Message F) : Type 0 where
    pub kind : m.msg_type ≡ t
    pub carries : m.payload ≡ obj payload
    pub bare : m.attachments ≡ []
    pub asks : m.requires_ack ≡ acked
    pub names : m.trial_id ≡ trial
    pub sender : m.sender_id ≡ "server"

  abbrev pub to_client : Sent F → Outgoing F
  to_client r = unicast r.client.client_id r.message

  -- The futures that are awaited.
  abbrev pub awaited : Bool → List (Sent F) → List ℕ
  awaited acked rows = if acked then map (λ r. r.future) rows else []

  -- The command with the id of its group, if it has one.
  abbrev pub command : Bool → Fields F → Server F → Fields F
  command acked payload s =
      if acked then put_field "command_id" (str (s.env.uuids s.env.issued)) payload else payload

module _ {F : Type 0} ⦃fl : Floats F⦄ where
  -- One pending entry for each message, under the message's id and its client.
  abbrev pub entered : Bool → List (Sent F) → PendingAckManager F → PendingAckManager F
  entered acked [] m = m
  entered acked (r ∷ rows) m =
      entered acked rows
        (if acked then Ack.add r.at r.message.msg_id r.client.client_id (some r.future) m else m)

  expect_ack-effect :
      (acked : Bool) (t peer : String) (payload : Fields F) (trial : Option String) (m : Message F)
      (s : Server F)
      → let o = expect_ack acked t peer payload trial m s in
        (o.0 ≡ ok (if acked then some s.env.next_future else none))
        × (o.1.env.outbox ≡ s.env.outbox)
        × (o.1.registry ≡ s.registry)
        × (o.1.env.refuses ≡ s.env.refuses)
        × (o.1.pending_acks ≡ (
            if acked
            then Ack.add
                (s.env.clock s.env.ticks)
                m.msg_id
                peer
                (some s.env.next_future)
                s.pending_acks
            else s.pending_acks))
  unfolding expect_ack create_future monotonic
  expect_ack-effect false t peer payload trial m s = (refl, refl, refl, refl, refl)
  expect_ack-effect true t peer payload trial m s = elim (Option-cases (command_of payload)) [
    | inl absent ↦ rw (absent, track) (refl, refl, refl, refl, refl)
    | inr (c, found) ↦ rw (found, track) (refl, refl, refl, refl, refl)
  ]

  after_message :
      (peer t : String) (payload : Fields F) (acked : Bool) (trial : Option String) (m : Message F)
      → Exec (Server F) (Option ℕ)
  after_message peer t payload acked trial m = do
    future ← expect_ack acked t peer payload trial m
    transport_send peer m
    increment "messages_sent"
    record_row "send" peer (some m) (field "payload" (obj payload) end)
    pure future

  -- The state with the message sent, counted and recorded.
  abbrev posted : (peer : String) → Fields F → Message F → Server F → Server F
  posted peer payload m s =
      with_row "send" peer (some m) (field "payload" (obj payload) end)
        (increment "messages_sent" (sent_to peer m s)).1

  after_message-eq :
      (peer t : String) (payload : Fields F) (acked : Bool) (trial : Option String) (m : Message F)
      (s : Server F)
      → ((o : Outgoing F) → s.env.refuses o ≡ none)
      → fields_json payload ≡ true
      → m.payload ≡ obj payload
      → m.attachments ≡ []
      → after_message peer t payload acked trial m s ≡ (
        ok (if acked then some s.env.next_future else none),
        posted peer payload m (expect_ack acked t peer payload trial m s).1,
      )
  unfolding after_message increment is_json
  after_message-eq peer t payload acked trial m s takes plain carries bare =
      let (future, _, _, refuses, _) = expect_ack-effect acked t peer payload trial m s in
      let s1 = (expect_ack acked t peer payload trial m s).1 in
      let taken : s1.env.refuses (unicast peer m) ≡ none = rw refuses (takes (unicast peer m)) in
      let logged =
        record_row-ok "send" peer (some m) (field "payload" (obj payload) end)
          (increment "messages_sent" (sent_to peer m s1)).1
          (is_json-to_dict m bare ∙ (rw carries plain)) (rw plain refl) in
      rw (future, transport_send-ok peer m s1 taken, logged) refl

  -- One message of a command, and what its sending leaves.
  abbrev pub Posts : (peer t : String) → Fields F → Bool → Option String → Server F → Type 0
  Posts peer t payload acked trial s =
      let o = send_control peer t payload acked trial s in
      (m : Message F) × (at : F) × (o.0 ≡ ok (if acked then some s.env.next_future else none))
      × IsCommand t payload acked trial m
      × (o.1.env.outbox ≡ s.env.outbox ++ unicast peer m ∷ [])
      × (o.1.registry ≡ s.registry)
      × (o.1.env.refuses ≡ s.env.refuses)
      × (o.1.pending_acks ≡ (
          if acked
          then Ack.add at m.msg_id peer (some s.env.next_future) s.pending_acks
          else s.pending_acks))

  -- the message, and the state in which it is made
  abbrev made : (t : String) → Fields F → Bool → Option String → Server F → Message F
  made t payload acked trial s = record {
    header =
        record (create (s.env.clock s.env.ticks) (s.env.uuids s.env.issued) t "server" "server"
          s.session.session_id trial acked none (priority_value Priority.normal) none) {
            server_ts = some (s.env.clock (s.env.ticks + 1));
          };
    payload = obj payload;
    attachments = [];
  }

  abbrev spent : Server F → Server F
  spent s = record s {
    env = record s.env { ticks = s.env.ticks + 1 + 1; issued = s.env.issued + 1 };
  }

  send_control-eq :
      (peer t : String) (payload : Fields F) (acked : Bool) (trial : Option String) (s : Server F)
      → send_control peer t payload acked trial s
        ≡ after_message peer t payload acked trial (made t payload acked trial s) (spent s)
  unfolding send_control after_message make_message monotonic new_uuid
  send_control-eq peer t payload acked trial s = refl

  pub send_control-Posts :
      (peer t : String) (payload : Fields F) (acked : Bool) (trial : Option String) (s : Server F)
      → ((o : Outgoing F) → s.env.refuses o ≡ none)
      → fields_json payload ≡ true
      → Posts peer t payload acked trial s
  unfolding increment create
  send_control-Posts peer t payload acked trial s takes plain =
      let m = made t payload acked trial s in
      let (_, outbox, registry, refuses, pending) =
        expect_ack-effect acked t peer payload trial m (spent s) in
      rw
        (
          send_control-eq peer t payload acked trial s,
          after_message-eq peer t payload acked trial m (spent s) takes plain refl refl,
        )
        (
          m,
          s.env.clock (s.env.ticks + 1 + 1),
          refl,
          record {
            kind = refl;
            carries = refl;
            bare = refl;
            asks = refl;
            names = refl;
            sender = refl;
          },
          ap (λ out. out ++ unicast peer m ∷ []) outbox,
          registry,
          refuses,
          pending,
        )

-- ===== src/Runtime/Server/Commands.antt =====
-- The commands of psyexp_net/runtime/server.py: `_send_control`, `_send_to_all` and the methods of the
-- public interface. The tasks of `_send_to_all` start in the order of the table, and each runs up to
-- its wait for the ACK: what is awaited is the result, a list of futures, that `gather` reads.
pub mod Laws
pub mod Posting
use psyexp_net.Prelude.{
  String, ℕ, Bool, true, false, Option, none, some, List, [], ◌∷◌, map, string_eq,
}
use psyexp_net.Prelude.Dict
use psyexp_net.Enums.{MessageType, message_type_value}
use psyexp_net.Errors.{Result, ok, err, ack_timeout, timeout}
use psyexp_net.Exec.{Exec, attempt, pure, raise, lift, modify, gets, ◌>>=◌, ◌>>◌}
use psyexp_net.Floats.{Floats}
use psyexp_net.Protocol.Ack
use psyexp_net.Protocol.Ack.{Future, waiting, resolved, cancelled, Futures}
use psyexp_net.Protocol.Message.{Message}
use psyexp_net.Runtime.Registry.{ClientInfo, all}
use psyexp_net.Runtime.Server.State.{
  Server, monotonic, new_uuid, create_future, transport_send, transport_broadcast, increment,
  make_message, record_row,
}
use psyexp_net.Runtime.Scheduler.{At, resolve_execute_at}
use psyexp_net.Runtime.Session
use psyexp_net.Runtime.Session.{SessionManager}
use psyexp_net.Value.{Value, str, float, obj, opt_str, Fields, field, end, lookup, put_field}

abbrev pub opt_cons : Option ℕ → List ℕ → List ℕ
opt_cons none ns = ns
opt_cons (some n) ns = n ∷ ns

-- What asyncio.gather makes of the tasks that have gathered: the futures that they wait for, or the
-- exception of the first that raised.
abbrev pub gathered : List (Result (Option ℕ)) → Result (List ℕ)
gathered [] = ok []
gathered (err e ∷ outcomes) = err e
gathered (ok future ∷ outcomes) = elim (gathered outcomes) [
  | err e ↦ err e
  | ok futures ↦ ok (opt_cons future futures)
]

-- required_roles or self.config.experiment.required_roles
abbrev pub roles_or : List String → List String → List String
roles_or [] configured = configured
roles_or (r ∷ rs) configured = r ∷ rs

module _ {F : Type 0} where
  -- payload.get("command_id") of a payload, if it is a text
  abbrev pub command_of : Fields F → Option String
  command_of fs = elim (lookup "command_id" fs) [ some (str c) ↦ some c | _ ↦ none ]

  -- self._message_tracking[msg_id] = {...}, if the message has a command
  unfoldable pub track :
      Option String
      → String
      → (peer_id : String) → (trial_id : Option String) → Message F
      → Exec (Server F) Unit
  track none msg_type peer_id trial_id m = pure tt
  track (some command_id) msg_type peer_id trial_id m = modify (λ s. record s {
    message_tracking =
        Dict.put m.msg_id
          (record {
            command_id = command_id;
            server_ts = m.server_ts;
            peer_id = peer_id;
            trial_id = trial_id;
            msg_type = msg_type;
          })
          s.message_tracking;
  })

module _ {F : Type 0} ⦃fl : Floats F⦄ where
  -- What stands before the wait when an ACK is required: the future, the pending entry and the
  -- tracking row.
  unfoldable pub expect_ack :
      Bool
      → (msg_type peer_id : String) → Fields F
      → (trial_id : Option String) → Message F
      → Exec (Server F) (Option ℕ)
  unfolding monotonic create_future track
  expect_ack false msg_type peer_id payload trial_id m = pure none
  expect_ack true msg_type peer_id payload trial_id m = do
    future ← create_future
    now ← monotonic
    modify
        (λ s. record s { pending_acks = Ack.add now m.msg_id peer_id (some future) s.pending_acks })
    track (command_of payload) msg_type peer_id trial_id m
    pure (some future)

  -- `_send_control` up to its wait, with the future that it waits for
  unfoldable pub send_control :
      (peer_id msg_type : String)
      → Fields F
      → (requires_ack : Bool) → (trial_id : Option String) → Exec (Server F) (Option ℕ)
  unfolding make_message expect_ack transport_send increment record_row
  send_control peer_id msg_type payload requires_ack trial_id = do
    message ← make_message msg_type payload requires_ack none trial_id
    future ← expect_ack requires_ack msg_type peer_id payload trial_id message
    transport_send peer_id message
    increment "messages_sent"
    record_row "send" peer_id (some message) (field "payload" (obj payload) end)
    pure future

  -- The tasks of `_send_to_all`, one for each client. One that raises does not keep the others from
  -- starting.
  unfoldable pub send_each :
      (msg_type : String)
      → Fields F
      → (requires_ack : Bool) → (trial_id : Option String) → List (ClientInfo F)
      → Exec (Server F) (List (Result (Option ℕ)))
  unfolding send_control
  send_each msg_type payload requires_ack trial_id [] = pure []
  send_each msg_type payload requires_ack trial_id (c ∷ cs) = do
    outcome ← attempt (send_control c.client_id msg_type payload requires_ack trial_id)
    outcomes ← send_each msg_type payload requires_ack trial_id cs
    pure (outcome ∷ outcomes)

  -- The payload of a command, with its id in a new group if ACKs are required.
  unfoldable pub open_group :
      Bool
      → (msg_type : String) → Fields F
      → (trial_id : Option String) → Exec (Server F) (Fields F)
  unfolding new_uuid
  open_group false msg_type payload trial_id = pure payload
  open_group true msg_type payload trial_id = do
    command_id ← new_uuid
    modify (λ s. record s {
      command_groups =
          Dict.put command_id
            (record {
              msg_type = msg_type;
              trial_id = trial_id;
              expected_peers = map (λ c. c.client_id) (all s.registry);
              apply_times = [];
            })
            s.command_groups;
    })
    pure (put_field "command_id" (str command_id) payload)

  -- `_send_to_all` up to its wait
  unfoldable pub send_to_all :
      MessageType
      → Fields F
      → (requires_ack : Bool) → (trial_id : Option String) → Exec (Server F) (List ℕ)
  unfolding open_group send_each
  send_to_all msg_type payload requires_ack trial_id = do
    payload' ← open_group requires_ack (message_type_value msg_type) payload trial_id
    clients ← gets (λ s. all s.registry)
    outcomes ← send_each (message_type_value msg_type) payload' requires_ack trial_id clients
    lift (gathered outcomes)

  -- asyncio.gather over the waits: `none` while it waits, an AckTimeoutError once a wait has timed out
  -- (its future is cancelled then), and done once all futures are resolved.
  unfoldable pub gather : Futures F → List ℕ → Option (Result (Unit {0}))
  gather fs [] = some (ok tt)
  gather fs (n ∷ ns) =
      let rest = gather fs ns in
      elim (fs n) [
        | waiting ↦ elim rest [ none ↦ none | some (ok _) ↦ none | some (err e) ↦ some (err e) ]
        | resolved v ↦ rest
        | cancelled ↦ some (err ack_timeout)
      ]

  unfoldable pub on_session : (SessionManager → SessionManager) → Exec (Server F) Unit
  on_session f = modify (λ s. record s { session = f s.session })

  unfoldable pub start_session : String → Exec (Server F) (List ℕ)
  unfolding on_session send_to_all
  start_session session_id = do
    on_session (Session.create session_id)
    on_session Session.start
    send_to_all MessageType.session_start (field "session_id" (str session_id) end) true none

  unfoldable pub stop_session : Exec (Server F) (List ℕ)
  unfolding on_session send_to_all
  stop_session = do
    on_session Session.stop
    session_id ← gets (λ s. s.session.session_id)
    send_to_all MessageType.session_stop (field "session_id" (opt_str session_id) end) true none

  unfoldable pub arm_trial : String → Exec (Server F) (List ℕ)
  unfolding on_session send_to_all
  arm_trial trial_id = do
    on_session (Session.arm_trial trial_id)
    send_to_all MessageType.trial_arm (field "trial_id" (str trial_id) end) true (some trial_id)

  unfoldable pub end_trial : String → Exec (Server F) (List ℕ)
  unfolding on_session send_to_all
  end_trial trial_id = do
    on_session (Session.end_trial trial_id)
    send_to_all MessageType.trial_end (field "trial_id" (str trial_id) end) false (some trial_id)

  unfoldable pub broadcast_state : Fields F → Exec (Server F) Unit
  unfolding make_message transport_broadcast record_row
  broadcast_state payload = do
    message ← make_message (message_type_value MessageType.state_update) payload false none none
    transport_broadcast message
    record_row "broadcast_state" "server" (some message) (field "payload" (obj payload) end)

  -- `collect`, at the moment of its call: the oldest result of the role, or `none` where it waits
  unfoldable pub collect : String → Server F → Option (Value F × Server F)
  collect role s = elim (Dict.get role s.results) [
    | some (v ∷ vs) ↦ some (v, record s { results = Dict.put role vs s.results })
    | _ ↦ none
  ]

  -- `start_trial`: the time of execution that it returns, beside the futures that it waits for
  unfoldable pub start_trial : String → At F → Exec (Server F) (F × List ℕ)
  unfolding monotonic on_session send_to_all
  start_trial trial_id at = do
    config ← gets (λ s. s.config)
    now ← monotonic
    execute_at ← lift (resolve_execute_at now at config.timing.default_lead_time_ms)
    on_session (Session.start_trial trial_id)
    futures ←
        send_to_all MessageType.trial_start_at
          (field "trial_id" (str trial_id) (field "execute_at" (float execute_at) end)) true
          (some trial_id)
    pure (execute_at, futures)

  -- `wait_until_clients_ready` behind the barrier, which returned these roles
  unfoldable pub finish_wait : (missing : List String) → Exec (Server F) Unit
  unfolding on_session
  finish_wait [] = on_session Session.mark_ready
  finish_wait (r ∷ rs) = raise timeout

  -- The roles that the barrier waits for.
  unfoldable pub awaited_roles : List String → Exec (Server F) (List String)
  awaited_roles required = gets (λ s. roles_or required s.config.experiment.required_roles)

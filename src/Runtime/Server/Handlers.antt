-- ===== src/Runtime/Server/Handlers.antt =====
-- `_handle_message` of psyexp_net/runtime/server.py, with the handlers that it calls, and the loop
-- that serves.
pub mod Laws
use psyexp_net.Prelude.{
  String, ℕ, Bool, true, false, Option, none, some, List, [], ◌∷◌, ◌++◌, map, ◌==◌, string_eq,
  if◌then◌else◌,
}
use psyexp_net.Prelude.Dict
use psyexp_net.Enums.{
  MessageType, message_type_value, ClientStatus, client_status_value, ErrorCode, error_code_value,
}
use psyexp_net.Errors.{
  Error, Result, ok, err, key_error, type_error, value_error, version_mismatch, authentication,
  duplicate_client, need,
}
use psyexp_net.Exec.{Exec, pure, raise, lift, modify, gets, ◌>>=◌, ◌>>◌}
use psyexp_net.Floats.{ℤ, pos, Floats}
use psyexp_net.Logging.Metrics.{list_of}
use psyexp_net.Protocol.Message.{Message}
use psyexp_net.Protocol.Versioning.{IntText, NegotiatedProtocol, negotiate_protocol, sorted_set}
use psyexp_net.Runtime.Registry
use psyexp_net.Runtime.Registry.{ClientInfo, ClientRegistry}
use psyexp_net.Runtime.Server.Acks.{handle_ack, expire_acks}
use psyexp_net.Runtime.Server.Health.{refresh_client_health}
use psyexp_net.Runtime.Server.Register.{handle_register}
use psyexp_net.Runtime.Server.State.{
  Server, monotonic, transport_send, on_registry, increment, observe, make_message, record_row,
  fields_of,
}
use psyexp_net.Runtime.Session
use psyexp_net.Security.{validate}
use psyexp_net.Transport.{ReceivedMessage}
use psyexp_net.Value.{
  Value, null, bool, int, float, str, arr, obj, Fields, field, end, lookup, items,
}
use psyexp_net.Value.Typed.{as_str, as_opt_str, as_str_list, keyword, to_float}

-- Whether a message is of a type.
abbrev pub is_type : MessageType → String → Bool
is_type t msg_type = msg_type == message_type_value t

-- What a call of the transport's `recv` comes to: an exception, a timeout or an event.
abbrev pub Yield : Type 0 → Type 0
Yield F = Result (Option (ReceivedMessage F))

module _ {F : Type 0} ⦃fl : Floats F⦄ (text : IntText) where
  open fl use {lit, of_ℤ, parse_float}

  unfoldable pub handle_ping : String → Message F → Exec (Server F) Unit
  unfolding monotonic make_message transport_send
  handle_ping peer_id message = do
    payload ← lift (fields_of message.payload)
    t0 ← lift (need key_error (lookup "t0" payload))
    t1 ← monotonic
    t2 ← monotonic
    response ←
        make_message (message_type_value MessageType.pong)
          (field "t0" t0 (field "t1" (float t1) (field "t2" (float t2) end))) false
          (some message.msg_id) none
    transport_send peer_id response

  -- if "offset_ms" in payload or "rtt_ms" in payload: ...
  unfoldable pub note_sync : String → Option (Value F) → Option (Value F) → Exec (Server F) Unit
  unfolding monotonic on_registry observe
  note_sync peer_id none none = pure tt
  note_sync peer_id offset rtt = do
    offset_ms ← lift (keyword to_float (lit 0 1) offset)
    rtt_ms ← lift (keyword to_float (lit 0 1) rtt)
    now ← monotonic
    on_registry (Registry.update_sync now peer_id offset_ms rtt_ms)
    observe "client_offset_ms" offset_ms
    observe "client_rtt_ms" rtt_ms

  unfoldable pub handle_status : String → Message F → Exec (Server F) Unit
  unfolding monotonic on_registry note_sync
  handle_status peer_id message = do
    payload ← lift (fields_of message.payload)
    status ←
        lift (keyword as_str (client_status_value ClientStatus.connected) (lookup "status" payload))
    now ← monotonic
    on_registry (Registry.update_status now peer_id status)
    note_sync peer_id (lookup "offset_ms" payload) (lookup "rtt_ms" payload)

  -- await self._results[role].put(payload)
  unfoldable pub queue_result : String → Value F → Exec (Server F) Unit
  queue_result role payload = modify (λ s. record s {
    results = Dict.put role (list_of (Dict.get role s.results) ++ payload ∷ []) s.results;
  })

  unfoldable pub handle_result : Message F → Exec (Server F) Unit
  unfolding increment queue_result
  handle_result message = do
    increment "result_reports"
    queue_result message.sender_role message.payload

  abbrev pub status_of : Option (ClientInfo F) → String
  status_of none = client_status_value ClientStatus.connected
  status_of (some c) = c.current_status

  unfoldable pub handle_heartbeat : String → Exec (Server F) Unit
  unfolding monotonic on_registry
  handle_heartbeat peer_id = do
    now ← monotonic
    status ← gets (λ s. status_of (Dict.get peer_id s.registry))
    on_registry (Registry.update_status now peer_id status)

  -- The dispatch on the message's type.
  unfoldable pub dispatch : (msg_type peer_id : String) → Message F → Exec (Server F) Unit
  dispatch msg_type peer_id message =
      if is_type MessageType.register msg_type
      then handle_register text peer_id message
      else if is_type MessageType.ping msg_type
      then handle_ping peer_id message
      else if is_type MessageType.client_status msg_type
      then handle_status peer_id message
      else if is_type MessageType.result_report msg_type
      then handle_result message
      else if is_type MessageType.event_report msg_type
      then increment "event_reports"
      else if is_type MessageType.ack msg_type
      then handle_ack peer_id message
      else if is_type MessageType.heartbeat msg_type
      then handle_heartbeat peer_id
      else pure tt

  -- `_handle_message`
  unfoldable pub handle_message : String → Message F → Exec (Server F) Unit
  unfolding monotonic on_registry
  handle_message peer_id message = do
    now ← monotonic
    on_registry (Registry.touch now peer_id)
    dispatch message.msg_type peer_id message

  -- One round of `_serve_loop`: `none` is a receive that timed out.
  unfoldable pub serve_one : Option (ReceivedMessage F) → Exec (Server F) Unit
  serve_one none = do expire_acks; refresh_client_health
  serve_one (some event) = do
    record_row "receive" event.peer_id (some event.message)
        (field "channel" (str event.channel) end)
    handle_message event.peer_id event.message
    expire_acks
    refresh_client_health

  -- `_serve_loop` over what the transport's `recv` comes to. Nothing catches an exception, one of `recv`
  -- neither: it ends the loop.
  unfoldable pub serve_loop : List (Yield F) → Exec (Server F) Unit
  serve_loop [] = pure tt
  serve_loop (yield ∷ yields) = do event ← lift yield; serve_one event; serve_loop yields

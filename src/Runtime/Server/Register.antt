-- ===== src/Runtime/Server/Register.antt =====
-- `_handle_register` of psyexp_net/runtime/server.py.
pub mod Laws
use psyexp_net.Prelude.{
  String, Bool, true, false, Option, none, some, List, [], ◌∷◌, ◌++◌, map, string_eq, if◌then◌else◌,
}
use psyexp_net.Enums.{
  MessageType, message_type_value, ClientStatus, client_status_value, ErrorCode, error_code_value,
}
use psyexp_net.Errors.{
  Result, ok, err, key_error, version_mismatch, authentication, duplicate_client, need,
}
use psyexp_net.Exec.{Exec, attempt, lift, gets, ◌>>=◌, ◌>>◌}
use psyexp_net.Floats.{Floats}
use psyexp_net.Protocol.Message.{Message}
use psyexp_net.Protocol.Versioning.{IntText, NegotiatedProtocol, negotiate_protocol, sorted_set}
use psyexp_net.Runtime.Registry
use psyexp_net.Runtime.Registry.{ClientInfo, ClientRegistry}
use psyexp_net.Runtime.Server.State.{
  Server, monotonic, transport_send, make_message, record_row, fields_of,
}
use psyexp_net.Runtime.Session
use psyexp_net.Security.{validate}
use psyexp_net.Value.{Value, bool, str, arr, obj, Fields, field, end, lookup, items}
use psyexp_net.Value.Typed.{as_str, as_str_list, keyword}

-- `_server_capabilities`
unfoldable pub server_capabilities : (require_secret : Bool) → List String
unfolding sorted_set
server_capabilities require_secret = sorted_set (
    ("structured-logs" ∷ "snapshot.sync" ∷ [])
    ++ (if require_secret then "auth.shared-secret" ∷ [] else [])
    ++ "timing.sync" ∷ [])

module _ {F : Type 0} ⦃fl : Floats F⦄ (text : IntText) where
  open fl use {lit}

  -- A secret that is no text is equal to no configured one.
  abbrev pub secret_of : Option (Value F) → Option String
  secret_of (some (str s)) = some s
  secret_of _ = none

  -- The ClientInfo of a registration. `connected_since` and `last_seen` are two readings.
  abbrev pub client_info : (peer_id role : String) → NegotiatedProtocol → F → F → ClientInfo F
  client_info peer_id role protocol connected_since last_seen = record {
    client_id = peer_id;
    role = role;
    host = "localhost";
    process_info = [];
    protocol_version = protocol.version;
    capabilities = protocol.capabilities;
    connected_since = connected_since;
    last_seen = last_seen;
    current_status = client_status_value ClientStatus.registered;
    offset_estimate_ms = lit 0 1;
    rtt_ms = lit 0 1;
    queue_health = [];
  }

  -- self.registry.register_or_refresh(info)
  unfoldable pub enter : F → ClientInfo F → Exec (Server F) (ClientInfo F × Bool)
  enter now info s = elim (Registry.register_or_refresh now info s.registry) [
    | ok (registered, refreshed, reg) ↦ (ok (registered, refreshed), record s { registry = reg })
    | err e ↦ (err e, s)
  ]

  -- The payload of REGISTER_OK.
  abbrev pub accepted : Server F → NegotiatedProtocol → ClientInfo F → Bool → Fields F
  accepted s protocol registered refreshed = field "accepted" (bool true) (
      field "snapshot" (obj (Session.as_dict (Session.snapshot s.session))) (
        field "registry" (arr (items (Registry.snapshot s.registry))) (
          field "reconnected" (bool refreshed) (
            field "client_id" (str registered.client_id) (
              field "protocol_version" (str protocol.version) (
                field "capabilities" (arr (items (map str protocol.capabilities)))
                  (field "degraded_protocol" (bool protocol.degraded) end)))))))

  -- The body of the `try` of `_handle_register`.
  unfoldable pub try_register : String → Fields F → Exec (Server F) (Fields F)
  unfolding monotonic enter
  try_register peer_id payload = do
    config ← gets (λ s. s.config)
    version ← lift (keyword as_str config.protocol.version (lookup "protocol_version" payload))
    capabilities ← lift (keyword as_str_list [] (lookup "capabilities" payload))
    protocol ← lift (
        negotiate_protocol text config.protocol.version version
          (server_capabilities config.security.require_secret) capabilities)
    lift (validate config.security peer_id (secret_of (lookup "client_secret" payload)))
    role ← lift (need key_error (lookup "role" payload))
    role ← lift (as_str role)
    connected_since ← monotonic
    last_seen ← monotonic
    now ← monotonic
    (registered, refreshed) ←
        enter now (client_info peer_id role protocol connected_since last_seen)
    gets (λ s. accepted s protocol registered refreshed)

  abbrev pub rejected : ErrorCode → Fields F → Fields F
  rejected code rest =
      field "accepted" (bool false) (field "error_code" (str (error_code_value code)) rest)

  -- The answer after the `try`, or the exception that its handlers let through.
  abbrev pub answer :
      (server_version : String) → Result (Fields F) → Result (MessageType × Fields F)
  answer server_version (ok payload) = ok (MessageType.register_ok, payload)
  answer server_version (err (version_mismatch reason)) = ok (
    MessageType.register_reject,
    rejected ErrorCode.version_mismatch
        (field "server_protocol_version" (str server_version) (field "reason" (str reason) end)),
  )
  answer server_version (err authentication) =
      ok (MessageType.register_reject, rejected ErrorCode.auth_failed end)
  answer server_version (err duplicate_client) =
      ok (MessageType.register_reject, rejected ErrorCode.duplicate_client_id end)
  answer server_version (err e) = err e

  -- The response behind the `try`: made, sent and recorded.
  unfoldable pub respond :
      MessageType → Fields F → (peer_id reply_to : String) → Exec (Server F) Unit
  unfolding make_message transport_send record_row
  respond response_type payload peer_id reply_to = do
    response ← make_message (message_type_value response_type) payload false (some reply_to) none
    transport_send peer_id response
    record_row "register_response" peer_id (some response) (field "payload" (obj payload) end)

  unfoldable pub handle_register : String → Message F → Exec (Server F) Unit
  unfolding try_register respond
  handle_register peer_id message = do
    payload ← lift (fields_of message.payload)
    outcome ← attempt (try_register peer_id payload)
    version ← gets (λ s. s.config.protocol.version)
    (response_type, reply) ← lift (answer version outcome)
    respond response_type reply peer_id message.msg_id

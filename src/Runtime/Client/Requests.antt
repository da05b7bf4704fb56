-- ===== src/Runtime/Client/Requests.antt =====
-- The requests of psyexp_net/runtime/client.py. A request is split at its wait for the response:
-- `begin` sends it and gives the future, `finish` goes on with the message that the future got.
use psyexp_net.Prelude.{
  String, ℕ, Bool, Option, none, some, List, [], ◌∷◌, ◌++◌, map, contains, ◌==◌, string_eq,
  if◌then◌else◌,
}
use psyexp_net.Prelude.Dict
use psyexp_net.Enums.{MessageType, message_type_value, ClientStatus, client_status_value}
use psyexp_net.Errors.{runtime, need, key_error}
use psyexp_net.Exec.{Exec, pure, raise, lift, modify, gets, ◌>>=◌, ◌>>◌}
use psyexp_net.Floats.{Floats}
use psyexp_net.Protocol.Message.{Message}
use psyexp_net.Protocol.Versioning.{sorted_set}
use psyexp_net.Runtime.Client.State.{
  Client, sent, monotonic, create_future, act, set_status, make_message, send,
}
use psyexp_net.Runtime.Session
use psyexp_net.Runtime.Server.State.{fields_of}
use psyexp_net.Timing.{sample}
use psyexp_net.Value.{
  Value, str, float, arr, obj, opt_str, items, list_of, Fields, field, end, lookup,
}
use psyexp_net.Value.Typed.{to_float}

abbrev pub secret_capability : Option String → List String
secret_capability none = []
secret_capability (some _) = "auth.shared-secret" ∷ []

-- `_capabilities`
unfoldable pub capabilities_of : Option String → List String
unfolding sorted_set
capabilities_of secret =
    sorted_set
      (("structured-logs" ∷ "snapshot.sync" ∷ "timing.sync" ∷ []) ++ secret_capability secret)

-- str(v)
abbrev pub to_text : {F : Type 0} → (Value F → String) → Value F → String
to_text show (str s) = s
to_text show v = show v

module _ {F : Type 0} where
  -- `_exchange` up to its wait
  unfoldable pub begin_exchange : MessageType → Fields F → Exec (Client F) ℕ
  unfolding make_message create_future
  begin_exchange msg_type payload = do
    message ← make_message msg_type payload
    future ← create_future
    modify (λ c. record c { responses = Dict.put message.msg_id future c.responses })
    act (sent message)
    pure future

  -- and behind it
  unfoldable pub finish_exchange : (expected : List String) → Message F → Exec (Client F) Unit
  finish_exchange expected response =
      if contains response.msg_type expected then pure tt else raise runtime

  abbrev pub registration : Client F → Fields F
  registration c = field "client_id" (str c.client_id) (
      field "role" (str c.role) (
        field "instance_uuid" (str c.identity.instance_uuid) (
          field "client_secret" (opt_str c.identity.client_secret) (
            field "protocol_version" (str c.config.protocol.version) (
              field "capabilities"
                (arr (items (map str (capabilities_of c.identity.client_secret)))) end)))))

  unfoldable pub begin_register : Exec (Client F) ℕ
  unfolding begin_exchange
  begin_register = do payload ← gets registration; begin_exchange MessageType.register payload

  -- if isinstance(snapshot, dict): self.session.apply_snapshot(snapshot)
  unfoldable pub apply_session : Option (Value F) → Exec (Client F) Unit
  apply_session (some (obj d)) = do
    snapshot ← lift (Session.of_dict d)
    modify (λ c. record c { session = Session.apply_snapshot snapshot c.session })
  apply_session _ = pure tt

  abbrev pub or_list : Option (Value F) → List (Value F) → List (Value F)
  or_list (some (arr vs)) old = list_of vs
  or_list _ old = old

  abbrev pub or_text : Option (Value F) → String → String
  or_text (some (str s)) old = s
  or_text _ old = old

  abbrev pub or_texts : (Value F → String) → Option (Value F) → List String → List String
  or_texts show (some (arr vs)) old = map (to_text show) (list_of vs)
  or_texts show _ old = old

  -- `_apply_register_snapshot`
  unfoldable pub apply_register_snapshot : Message F → Exec (Client F) Unit
  unfolding apply_session
  apply_register_snapshot response = do
    payload ← lift (fields_of response.payload)
    apply_session (lookup "snapshot" payload)
    modify (λ c. record c {
      registry_snapshot = or_list (lookup "registry" payload) c.registry_snapshot;
      negotiated_protocol_version =
          or_text (lookup "protocol_version" payload) c.negotiated_protocol_version;
      negotiated_capabilities =
          or_texts c.env.show (lookup "capabilities" payload) c.negotiated_capabilities;
    })

  -- The branch of `register` for a REGISTER_OK.
  unfoldable pub accept : Message F → Exec (Client F) Unit
  unfolding set_status apply_register_snapshot
  accept response = do
    set_status (client_status_value ClientStatus.registered)
    apply_register_snapshot response

  -- `register` behind its wait
  unfoldable pub finish_register : Message F → Exec (Client F) Unit
  unfolding finish_exchange set_status accept
  finish_register response = do
    finish_exchange
        (message_type_value MessageType.register_ok
          ∷ message_type_value MessageType.register_reject
          ∷ [])
        response
    if response.msg_type == message_type_value MessageType.register_ok
        then accept response
        else set_status (client_status_value ClientStatus.rejected)

  -- `_send_status`
  unfoldable pub send_status : String → Exec (Client F) Unit
  unfolding send
  send_status status = do
    offset_ms ← gets (λ c. c.offset_ms)
    rtt_ms ← gets (λ c. c.rtt_ms)
    send MessageType.client_status (
        field "status" (str status)
          (field "offset_ms" (float offset_ms) (field "rtt_ms" (float rtt_ms) end)))

  unfoldable pub ready : Exec (Client F) Unit
  unfolding set_status send_status
  ready = do
    set_status (client_status_value ClientStatus.ready)
    send_status (client_status_value ClientStatus.ready)

  unfoldable pub report_result : Fields F → Exec (Client F) Unit
  unfolding send
  report_result payload = send MessageType.result_report payload

  unfoldable pub report_event : Fields F → Exec (Client F) Unit
  unfolding send
  report_event payload = send MessageType.event_report payload

  -- `sync_clock` up to its wait: t0 and the future
  unfoldable pub begin_sync : Exec (Client F) (F × ℕ)
  unfolding monotonic begin_exchange
  begin_sync = do
    t0 ← monotonic
    future ← begin_exchange MessageType.ping (field "t0" (float t0) end)
    pure (t0, future)

module _ {F : Type 0} ⦃fl : Floats F⦄ where
  -- `sync_clock` behind its wait
  unfoldable pub finish_sync :
      (preserve_status : Bool) (previous_status : String) (t0 : F)
      → Message F
      → Exec (Client F) Unit
  unfolding finish_exchange monotonic set_status send_status
  finish_sync preserve_status previous_status t0 response = do
    finish_exchange (message_type_value MessageType.pong ∷ []) response
    t3 ← monotonic
    payload ← lift (fields_of response.payload)
    t1 ← lift (need key_error (lookup "t1" payload))
    t1 ← lift (to_float t1)
    t2 ← lift (need key_error (lookup "t2" payload))
    t2 ← lift (to_float t2)
    modify (λ c. record c {
      rtt_ms = (sample t0 t1 t2 t3).rtt_ms;
      offset_ms = (sample t0 t1 t2 t3).offset_ms;
    })
    let status =
        if preserve_status then previous_status else client_status_value ClientStatus.synced
    set_status status
    send_status status

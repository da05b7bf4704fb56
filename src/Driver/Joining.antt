-- ===== src/Driver/Joining.antt =====
-- `psyexp-net client connect`: `run_client_command` of psyexp_net/cli/main.py, and its handlers.
pub mod Laws
use psyexp_net.Prelude.{
  String, Bool, true, false, not, ◌||◌, Option, List, [], ◌∷◌, ◌++◌, map, ◌==◌, string_eq,
  if◌then◌else◌,
}
use psyexp_net.Config.{AppConfig}
use psyexp_net.Config.Mapping.{network_dict}
use psyexp_net.Config.Overrides.{normalize_loopback_network}
use psyexp_net.Driver.{
  Call, Answers, World, call, ask, client_connect, client_register, client_sync_clock, client_ready,
  client_close,
}
use psyexp_net.Driver.Handlers.{is_noted, client_result}
use psyexp_net.Driver.Serving.{sleep_or_wait_forever}
use psyexp_net.Driver.Stack.{Peer, build_client}
use psyexp_net.Enums.{MessageType, message_type_value}
use psyexp_net.Errors.{value_error}
use psyexp_net.Exec.{Exec, pure, raise, lift, modify, try_finally, ◌>>=◌, ◌>>◌}
use psyexp_net.Floats.{Floats}
use psyexp_net.Protocol.Message.{Message}
use psyexp_net.Value.{Value, str, float, arr, items, obj, Fields, field, end, lookup}

pub record ClientOptions (F : Type 0) : Type 0 where
  pub role : String
  pub client_id : String
  pub duration : Option F
  pub report_on_trial_start : Bool

-- What the handlers have done: `seen_messages`, and the payloads of report_result.
pub record Handled (F : Type 0) : Type 0 where
  pub seen_messages : List String
  pub reports : List (Fields F)

module _ {F : Type 0} where
  abbrev pub note_seen : Message F → Exec (Handled F) Unit
  note_seen m = modify (λ h. record h { seen_messages = h.seen_messages ++ m.msg_type ∷ [] })

  abbrev pub report : Fields F → Exec (Handled F) Unit
  report payload = modify (λ h. record h { reports = h.reports ++ payload ∷ [] })

  -- `on_trial_start`
  unfoldable pub on_trial_start : ClientOptions F → Message F → Exec (Handled F) Unit
  unfolding client_result
  on_trial_start args m = do
    note_seen m
    if args.report_on_trial_start
        then (do r ← lift (client_result args.client_id m); report r)
        else pure tt

  -- What the handlers that the command sets do with a message.
  unfoldable pub handle : ClientOptions F → Message F → Exec (Handled F) Unit
  unfolding on_trial_start
  handle args m =
      if m.msg_type == message_type_value MessageType.trial_start_at
      then on_trial_start args m
      else if is_noted m.msg_type
      then note_seen m
      else pure tt

module _ {F : Type 0} ⦃fl : Floats F⦄ (a : Answers F) where
  -- the report, of the calls so far
  abbrev pub client_report : AppConfig F → Peer → List (Call F) → Fields F
  client_report config client cs = field "backend" (str config.network.backend) (
      field "network" (obj (network_dict config.network)) (
        field "client_id" (str client.client_id) (
          field "role" (str client.role) (
            field "status" (str (a.status client.client_id cs)) (
              field "register_response" (str (a.answered client.client_id cs)) (
                field "offset_ms" (float (a.offset_ms client.client_id cs)) (
                  field "rtt_ms" (float (a.rtt_ms client.client_id cs))
                    (field "seen_messages" (arr (items (map str (a.seen_messages cs)))) end))))))))

  -- what is tried
  unfoldable pub join_for : AppConfig F → Peer → Option F → Exec (World F) (Fields F)
  unfolding call sleep_or_wait_forever
  join_for config client duration = do
    call a (client_register client.client_id)
    call a (client_sync_clock client.client_id)
    call a (client_ready client.client_id)
    sleep_or_wait_forever a duration
    ask a (client_report config client)

  abbrev pub connect_and_join : AppConfig F → Option F → Peer → Exec (World F) (Fields F)
  connect_and_join config duration client = do
    call a (client_connect client.client_id)
    (shown, closed) ←
        try_finally (join_for config client duration) (call a (client_close client.client_id))
    pure shown

  unfoldable pub run_client_command : AppConfig F → ClientOptions F → Exec (World F) (Fields F)
  unfolding call join_for build_client normalize_loopback_network
  run_client_command config args =
      if not (config.network.backend == "zmq") then raise value_error else do
        config' ← lift (normalize_loopback_network config)
        client ← lift (build_client config' args.role args.client_id)
        connect_and_join config' args.duration client

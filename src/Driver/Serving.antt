-- ===== src/Driver/Serving.antt =====
-- `psyexp-net server start`: `run_server_command` of psyexp_net/cli/main.py. An interrupt of a wait is
-- what the wait raises.
pub mod Laws
use psyexp_net.Prelude.{
  String, ℕ, Bool, true, false, not, ◌||◌, Option, none, some, List, [], ◌∷◌, contains, ◌==◌,
  string_eq, if◌then◌else◌,
}
use psyexp_net.Config.{AppConfig}
use psyexp_net.Config.Mapping.{network_dict}
use psyexp_net.Config.Overrides.{normalize_loopback_network}
use psyexp_net.Driver.{
  Call, Answers, World, call, ask, server_start, server_shutdown, wait_until_clients_ready,
  start_session, arm_trial, broadcast_state, start_trial, collect, end_trial, stop_session,
  discovery_open, discovery_register, discovery_close, sleep, wait_forever,
}
use psyexp_net.Driver.Stack.{build_server}
use psyexp_net.Errors.{value_error}
use psyexp_net.Exec.{Exec, pure, raise, lift, try_finally, ◌>>=◌, ◌>>◌}
use psyexp_net.Floats.{Floats}
use psyexp_net.Value.{Value, null, str, opt_str, obj, Fields, field, end}

pub record ServerOptions (F : Type 0) : Type 0 where
  pub duration : Option F
  pub publish_discovery : Bool
  pub wait_for_ready : Bool
  pub start_session : Bool
  pub session_id : String
  pub trial_id : String
  pub result_role : String

module _ {F : Type 0} ⦃fl : Floats F⦄ (a : Answers F) where
  open fl use {lt, lit}

  -- a part that may be left out
  abbrev pub when : Bool → Exec (World F) Unit → Exec (World F) Unit
  when b m = if b then m else pure tt

  -- `_sleep_or_wait_forever`
  unfoldable pub sleep_or_wait_forever : Option F → Exec (World F) Unit
  unfolding call
  sleep_or_wait_forever none = call a wait_forever
  sleep_or_wait_forever (some duration) = when (lt (lit 0 1) duration) (call a (sleep duration))

  -- the result of the role, if a client has it
  abbrev pub collect_if : Bool → String → Exec (World F) (Option (Value F))
  collect_if true role = do call a (collect role (lit 2 1)); v ← ask a a.result; pure (some v)
  collect_if false role = pure none

  -- the session with its one trial
  unfoldable pub run_session : ServerOptions F → Exec (World F) (Option (Value F))
  unfolding call
  run_session args = do
    call a (Call.start_session args.session_id)
    call a (arm_trial args.trial_id)
    call a (broadcast_state (field "phase" (str "stimulus") end))
    call a (start_trial args.trial_id "+50ms")
    roles ← ask a a.roles
    collected ← collect_if (contains args.result_role roles) args.result_role
    call a (end_trial args.trial_id)
    call a stop_session
    pure collected

  -- what is tried
  unfoldable pub serve : ServerOptions F → Exec (World F) (Option (Value F))
  unfolding call run_session sleep_or_wait_forever
  serve args = do
    when args.wait_for_ready (call a (wait_until_clients_ready [] (lit 5 1)))
    collected ← if args.start_session then run_session args else pure none
    sleep_or_wait_forever args.duration
    pure collected

  -- what is done at last: the registry's table
  unfoldable pub finish : (has_discovery : Bool) → Exec (World F) (Value F)
  unfolding call
  finish has_discovery = do
    when has_discovery (call a discovery_close)
    registry ← ask a a.registry
    call a server_shutdown
    pure registry

  abbrev pub opt_value : Option (Value F) → Value F
  opt_value none = null
  opt_value (some v) = v

  abbrev pub server_report : AppConfig F → ServerOptions F → Value F → Option (Value F) → Fields F
  server_report config args registry collected = field "backend" (str config.network.backend) (
      field "network" (obj (network_dict config.network)) (
        field "session_id" (opt_str (if args.start_session then some args.session_id else none)) (
          field "trial_id" (opt_str (if args.start_session then some args.trial_id else none)) (
            field "clients" registry (
              field "collected_result" (opt_value collected)
                (field "log_dir" (str a.session_dir) end))))))

  -- the configuration that it serves with, and whether discovery is on
  abbrev pub has_discovery : AppConfig F → ServerOptions F → Bool
  has_discovery config args = args.publish_discovery || config.network.discovery == "zeroconf"

  -- what is tried, what is done at last, and the report
  unfoldable pub attempt_serve : AppConfig F → ServerOptions F → Exec (World F) (Fields F)
  unfolding serve finish
  attempt_serve config args = do
    (collected, registry) ← try_finally (serve args) (finish (has_discovery config args))
    pure (server_report config args registry collected)

  -- what comes behind the making of the server and the service
  unfoldable pub serve_with : AppConfig F → ServerOptions F → Exec (World F) (Fields F)
  unfolding call attempt_serve
  serve_with config args = do
    call a server_start
    when (has_discovery config args) (call a discovery_register)
    attempt_serve config args

  unfoldable pub run_server_command : AppConfig F → ServerOptions F → Exec (World F) (Fields F)
  unfolding call serve_with build_server normalize_loopback_network
  run_server_command config args =
      if not (config.network.backend == "zmq") then raise value_error else do
        config' ← lift (normalize_loopback_network config)
        server ← lift (build_server config')
        when (has_discovery config' args) (call a discovery_open)
        serve_with config' args

-- ===== src/Driver/Demo.antt =====
-- The demonstrations: `run_demo` of psyexp_net/cli/main.py and `main` of examples/demo_inmemory.py.
-- The handlers of both are in Handlers.
use psyexp_net.Prelude.{String, List, [], ◌∷◌, map}
use psyexp_net.Config.{AppConfig}
use psyexp_net.Config.Mapping.{network_dict, to_dict, from_mapping, texts}
use psyexp_net.Discovery.{Found}
use psyexp_net.Driver.{
  Answers, World, call, ask, server_start, server_shutdown, wait_until_clients_ready, start_session,
  arm_trial, broadcast_state, start_trial, collect, end_trial, stop_session, client_connect,
  client_register, client_sync_clock, client_ready, client_close,
}
use psyexp_net.Driver.Stack.{resolve_local_demo_config, build_demo_stack}
use psyexp_net.Errors.{Result}
use psyexp_net.Exec.{Exec, pure, lift, for_each, ◌>>=◌, ◌>>◌}
use psyexp_net.Floats.{Floats}
use psyexp_net.Value.{Value, str, float, obj, Fields, field, end, put_field}

abbrev pub demo_roles : List String
demo_roles = "stimulus" ∷ "response" ∷ []

module _ {F : Type 0} where
  abbrev pub experiment_fields : Value F
  experiment_fields = obj (field "required_roles" (texts demo_roles) end)

module _ {F : Type 0} ⦃fl : Floats F⦄ (a : Answers F) where
  open fl use {lit}

  -- connect, register, sync_clock and ready of a client
  unfoldable pub join : String → Exec (World F) Unit
  unfolding call
  join client_id = do
    call a (client_connect client_id)
    call a (client_register client_id)
    call a (client_sync_clock client_id)
    call a (client_ready client_id)

  abbrev pub close : String → Exec (World F) Unit
  close client_id = call a (client_close client_id)

  abbrev pub demo_report : AppConfig F → F → Value F → Fields F
  demo_report config execute_at result = field "backend" (str config.network.backend) (
      field "network" (obj (network_dict config.network)) (
        field "execute_at" (float execute_at)
          (field "result" result (field "log_dir" (str a.session_dir) end))))

  -- the calls of `run_demo`, on clients with these ids
  unfoldable pub play : AppConfig F → List String → Exec (World F) (Fields F)
  unfolding call join for_each
  play config ids = do
    call a server_start
    for_each join ids
    call a (wait_until_clients_ready [] (lit 2 1))
    call a (start_session "DEMO")
    call a (arm_trial "T001")
    call a (start_trial "T001" "+50ms")
    execute_at ← ask a a.execute_at
    call a (collect "response" (lit 2 1))
    result ← ask a a.result
    call a stop_session
    for_each close ids
    call a server_shutdown
    pure (demo_report config execute_at result)

  -- `run_demo`; `records` are what discovery finds
  unfoldable pub run_demo : Result (List Found) → AppConfig F → Exec (World F) (Fields F)
  unfolding put_field resolve_local_demo_config build_demo_stack play
  run_demo records config = do
    config' ← lift (from_mapping (put_field "experiment" experiment_fields (to_dict config)))
    config'' ← resolve_local_demo_config a records config'
    stack ← lift (build_demo_stack config'')
    play config'' (map (λ p. p.client_id) stack.peers)

  -- `main` of the example
  unfoldable pub example_main : Exec (World F) (Fields F)
  unfolding call join for_each
  example_main = do
    config ← lift (from_mapping {F = F} (field "experiment" experiment_fields end))
    call a server_start
    for_each join ("stim-01" ∷ "resp-01" ∷ [])
    call a (wait_until_clients_ready [] (lit 5 1))
    call a (start_session "S001")
    call a (arm_trial "T001")
    call a (broadcast_state (field "phase" (str "stimulus") end))
    call a (start_trial "T001" "+120ms")
    execute_at ← ask a a.execute_at
    call a (collect "response" (lit 2 1))
    result ← ask a a.result
    call a (end_trial "T001")
    call a stop_session
    for_each close ("stim-01" ∷ "resp-01" ∷ [])
    call a server_shutdown
    pure (
        field "execute_at" (float execute_at)
          (field "result" result (field "log_dir" (str a.session_dir) end)))

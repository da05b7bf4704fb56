-- ===== src/Driver/Joining/Laws.antt =====
-- How `run_client_command` of psyexp_net/cli/main.py ends.
use psyexp_net.Prelude.{true, Option, none, List, ◌∷◌, ◌++◌, All, ◌≡◌, ap, ◌∙◌, ◌==◌, string_eq}
use psyexp_net.Prelude.Dict
use psyexp_net.Config.{AppConfig}
use psyexp_net.Config.Overrides.Laws.{on_loopback, normalize_loopback_network_lem}
use psyexp_net.Driver.{Call, Answers, World, call, client_connect, client_close}
use psyexp_net.Driver.Joining.{ClientOptions, join_for, run_client_command}
use psyexp_net.Driver.Serving.Laws.{sleep_or_wait_forever-Makes}
use psyexp_net.Driver.Stack.{Peer, zmq_client, build_client}
use psyexp_net.Driver.Steps.{IsStep, Makes, makes_rules, after-pure}
use psyexp_net.Exec.{try_finally}
use psyexp_net.Floats.{Floats}

module _ {F : Type 0} ⦃fl : Floats F⦄ (a : Answers F) where
  join_for-Makes :
      (config : AppConfig F) (client : Peer) (duration : Option F)
      → Makes IsStep (join_for a config client duration)
  unfolding join_for
  join_for-Makes config client duration =
      search (makes_rules, sleep_or_wait_forever-Makes a) depth 20

  -- Over ZeroMQ, once the client has connected: however its registration, its synchronisation and its
  -- waits end, by an exception or an interrupt too, it is closed, once and as the last call of the
  -- run, and nothing else is started or stopped. No client id has two shared secrets.
  pub run_client_command-closes :
      (config : AppConfig F) (args : ClientOptions F) (w : World F)
      → Dict.Distinct config.security.shared_secrets
      → (config.network.backend == "zmq") ≡ true
      → a.raises (client_connect args.client_id ∷ w.calls) ≡ none
      → (steps : List (Call F)) × ((run_client_command a config args w).1.calls
          ≡ client_close args.client_id ∷ (steps ++ client_connect args.client_id ∷ w.calls))
        × All IsStep steps
  unfolding run_client_command build_client call
  run_client_command-closes config args w d zmq connects =
      let id = args.client_id in
      let client : Peer = record { role = args.role; client_id = id; transport = zmq_client id } in
      let w' = record w { calls = client_connect id ∷ w.calls } in
      let tried = join_for a (on_loopback config) client args.duration in
      let stayed = (join_for-Makes (on_loopback config) client args.duration).at w' in
      (
        stayed.steps,
        rw (zmq, normalize_loopback_network_lem config d)
            (rw (zmq, connects)
              (ap (λ (v : World F). v.calls)
                  (after-pure (try_finally tried (call a (client_close id)) w').0 _ _)
                ∙ ap (λ cs. client_close id ∷ cs) stayed.made)),
        stayed.kind,
      )

-- ===== src/Driver/Serving/Laws.antt =====
-- How `run_server_command` of psyexp_net/cli/main.py ends.
use psyexp_net.Prelude.{
  Bool, true, false, Option, none, some, List, ◌∷◌, ◌++◌, All, ◌≡◌, ap, ◌∙◌, ◌==◌, string_eq,
}
use psyexp_net.Prelude.Dict
use psyexp_net.Config.{AppConfig}
use psyexp_net.Config.Overrides.Laws.{on_loopback, normalize_loopback_network_lem}
use psyexp_net.Driver.{
  Call, Answers, World, call, raised, server_start, server_shutdown, discovery_open,
  discovery_register, discovery_close,
}
use psyexp_net.Driver.Serving.{
  ServerOptions, when, sleep_or_wait_forever, collect_if, run_session, serve, finish, has_discovery,
  attempt_serve, serve_with, run_server_command,
}
use psyexp_net.Driver.Stack.{build_server}
use psyexp_net.Driver.Steps.{
  IsStep, Makes, makes_rules, also, after-pure, call-seq, call-seq-if, call-seq-if_true,
  call-seq-if_raises,
}
use psyexp_net.Value.{Fields}
use psyexp_net.Errors.{Error, Result, err}
use psyexp_net.Exec.{try_finally, ◌>>=◌, ◌>>◌}
use psyexp_net.Floats.{Floats}

module _ {F : Type 0} ⦃fl : Floats F⦄ (a : Answers F) where
  when-Makes : (b : Bool) (c : Call F) → IsStep c → Makes IsStep (when a b (call a c))
  when-Makes b c p = search (makes_rules)

  collect_if-Makes : (b : Bool) (role : _) → Makes IsStep (collect_if a b role)
  collect_if-Makes true role = search makes_rules
  collect_if-Makes false role = search makes_rules

  pub sleep_or_wait_forever-Makes :
      (duration : Option F) → Makes IsStep (sleep_or_wait_forever a duration)
  unfolding sleep_or_wait_forever
  sleep_or_wait_forever-Makes none = search makes_rules
  sleep_or_wait_forever-Makes (some d) = search makes_rules

  run_session-Makes : (args : ServerOptions F) → Makes IsStep (run_session a args)
  unfolding run_session
  run_session-Makes args = search (makes_rules, collect_if-Makes) depth 30

  serve-Makes : (args : ServerOptions F) → Makes IsStep (serve a args)
  unfolding serve
  serve-Makes args =
      search (makes_rules, when-Makes, run_session-Makes, sleep_or_wait_forever-Makes) depth 20

  -- What the last part adds, if discovery can be closed.
  calls-finish :
      (has : Bool) (w : World F)
      → ((cs : List (Call F)) → a.raises (discovery_close ∷ cs) ≡ none)
      → (finish a has w).1.calls ≡ server_shutdown ∷ also has discovery_close w.calls
  unfolding finish call
  calls-finish true w closes =
      rw (closes w.calls, ◌>>=◌)
        (ap (λ (w : World F). w.calls)
          (after-pure (raised (a.raises (server_shutdown ∷ discovery_close ∷ w.calls))) _ _))
  calls-finish false w closes =
      ap (λ (w : World F). w.calls) (after-pure (raised (a.raises (server_shutdown ∷ w.calls))) _ _)

  -- what is tried and what comes last, from any state
  tried-calls :
      (config : AppConfig F) (args : ServerOptions F) (w : World F)
      → ((cs : List (Call F)) → a.raises (discovery_close ∷ cs) ≡ none)
      → (steps : List (Call F)) × ((attempt_serve a config args w).1.calls
          ≡ server_shutdown ∷ also (has_discovery a config args) discovery_close (steps ++ w.calls))
        × All IsStep steps
  unfolding attempt_serve
  tried-calls config args w closes =
      let served = (serve-Makes args).at w in
      let has = has_discovery a config args in
      (
        served.steps,
        ap (λ (w : World F). w.calls)
              (after-pure (try_finally (serve a args) (finish a has) w).0 _ _)
            ∙ calls-finish has (serve a args w).1 closes
            ∙ ap (λ cs. server_shutdown ∷ also has discovery_close cs) served.made,
        served.kind,
      )

  -- The run from the start of the server, where the start and the registration succeed.
  serve_with-calls :
      (config : AppConfig F) (args : ServerOptions F) (w : World F)
      → a.raises (server_start ∷ w.calls) ≡ none
      → a.raises (discovery_register ∷ server_start ∷ w.calls) ≡ none
      → ((cs : List (Call F)) → a.raises (discovery_close ∷ cs) ≡ none)
      → (steps : List (Call F)) × ((serve_with a config args w).1.calls
          ≡ server_shutdown
            ∷ also (has_discovery a config args) discovery_close (
                steps
                ++ also (has_discovery a config args) discovery_register (server_start ∷ w.calls)))
        × All IsStep steps
  unfolding serve_with
  serve_with-calls config args w started registered closes =
      let has = has_discovery a config args in
      let w' = record w { calls = server_start ∷ w.calls } in
      let run =
        call-seq a server_start
          (when a has (call a discovery_register) >> attempt_serve a config args) w started
        ∙ call-seq-if a has discovery_register (attempt_serve a config args) w' registered in
      let (steps, made, kind) =
        tried-calls config args (record w { calls = also has discovery_register w'.calls })
          closes in
      (steps, ap (λ (r : Result (Fields F) × World F). r.1.calls) run ∙ made, kind)

  -- If pyzmq and zeroconf let the server and its service start and the service be closed, then however
  -- the experiment and the waits end, by an exception or an interrupt too, the service is closed, if
  -- there is one, and then the server is shut down, once and as the last call of the run.
  pub run_server_command-stops :
      (config : AppConfig F) (args : ServerOptions F) (w : World F)
      → Dict.Distinct config.security.shared_secrets
      → (config.network.backend == "zmq") ≡ true
      → a.raises (discovery_open ∷ w.calls) ≡ none
      → ((cs : List (Call F)) → a.raises (server_start ∷ cs) ≡ none)
      → ((cs : List (Call F)) → a.raises (discovery_register ∷ cs) ≡ none)
      → ((cs : List (Call F)) → a.raises (discovery_close ∷ cs) ≡ none)
      → let has = has_discovery a config args in
        (steps : List (Call F)) × ((run_server_command a config args w).1.calls
          ≡ server_shutdown
            ∷ also has discovery_close (
                steps
                ++ also has discovery_register (server_start ∷ also has discovery_open w.calls)))
        × All IsStep steps
  unfolding run_server_command build_server
  run_server_command-stops config args w d zmq opens starts registers closes =
      let has = has_discovery a config args in
      let (steps, made, kind) =
        serve_with-calls (on_loopback config) args
          (record w { calls = also has discovery_open w.calls }) (starts _) (registers _) closes in
      (
        steps,
        rw (zmq, normalize_loopback_network_lem config d)
            (rw zmq (
              ap (λ (r : Result (Fields F) × World F). r.1.calls)
                (call-seq-if a has discovery_open (serve_with a (on_loopback config) args) w opens)
              ∙ made)),
        kind,
      )

  serve_with-refused :
      (config : AppConfig F) (args : ServerOptions F) (w : World F) (e : Error)
      → has_discovery a config args ≡ true
      → a.raises (server_start ∷ w.calls) ≡ none
      → a.raises (discovery_register ∷ server_start ∷ w.calls) ≡ some e
      → serve_with a config args w
        ≡ (err e, record w { calls = discovery_register ∷ server_start ∷ w.calls })
  unfolding serve_with
  serve_with-refused config args w e on starts refused =
      let has = has_discovery a config args in
      call-seq a server_start
        (when a has (call a discovery_register) >> attempt_serve a config args) w starts
      ∙ call-seq-if_raises a has discovery_register (attempt_serve a config args)
          (record w { calls = server_start ∷ w.calls }) on refused

  -- If the registration of the service raises, the run ends with that exception, and the server that
  -- was started is not shut down.
  pub run_server_command-unregistered :
      (config : AppConfig F) (args : ServerOptions F) (w : World F) (e : Error)
      → Dict.Distinct config.security.shared_secrets
      → (config.network.backend == "zmq") ≡ true
      → has_discovery a config args ≡ true
      → a.raises (discovery_open ∷ w.calls) ≡ none
      → a.raises (server_start ∷ discovery_open ∷ w.calls) ≡ none
      → a.raises (discovery_register ∷ server_start ∷ discovery_open ∷ w.calls) ≡ some e
      → run_server_command a config args w
        ≡ (err e, record w { calls = discovery_register ∷ server_start ∷ discovery_open ∷ w.calls })
  unfolding run_server_command build_server
  run_server_command-unregistered config args w e d zmq on opens starts refused =
      rw (zmq, normalize_loopback_network_lem config d)
        (rw zmq (
          call-seq-if_true a (has_discovery a config args) discovery_open
            (serve_with a (on_loopback config) args) w on opens
          ∙ serve_with-refused (on_loopback config) args
              (record w { calls = discovery_open ∷ w.calls }) e on starts refused))

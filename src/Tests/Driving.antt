-- ===== src/Tests/Driving.antt =====
-- The programs that drive servers and clients, at concrete worlds: psyexp_net/cli/main.py and
-- health/benchmark.py.
use psyexp_net.Prelude.{
  String, ℕ, true, false, Option, none, some, List, [], ◌∷◌, ◌++◌, map, length, All, ◌≡◌, refl,
  arith,
}
use psyexp_net.Config.{AppConfig, default_config}
use psyexp_net.Config.Mapping.{nat, texts}
use psyexp_net.Driver.{
  Call, Answers, World, server_start, server_shutdown, discovery_open, discovery_register,
  discovery_close, collect,
}
use psyexp_net.Driver.Benchmark.{no_rounds, rounds, benchmark_with}
use psyexp_net.Driver.Benchmark.Laws.{CountsUpTo, closed, rounds_lem, benchmark_with-stops}
use psyexp_net.Driver.Inspect.{inspect}
use psyexp_net.Driver.Inspect.Laws.{Heard, heard_row, silent, inspect-trial_ids_of, inspect-silent}
use psyexp_net.Driver.Joining.{ClientOptions}
use psyexp_net.Driver.Serving.{ServerOptions, has_discovery, run_server_command}
use psyexp_net.Driver.Serving.Laws.{run_server_command-stops, run_server_command-unregistered}
use psyexp_net.Driver.Stack.{Peer, memory_client}
use psyexp_net.Driver.Steps.{IsStep, IsOpen, also, Ends}
use psyexp_net.Errors.{Error, ok, err, timeout, service_error, attribute_error}
use psyexp_net.Logging.Replay.Messages.{trial_ids_of}
use psyexp_net.Protocol.Versioning.{sorted_set}
use psyexp_net.Runtime.Session
use psyexp_net.Tests.Replaying.{sent}
use psyexp_net.Tests.World.{nat_floats, tallies, statistics}
use psyexp_net.Value.{null, field, end}

-- Over ZeroMQ, with discovery.
abbrev config : AppConfig ℕ
config = record (default_config {F = ℕ}) {
  network = record (default_config {F = ℕ}).network { backend = "zmq"; discovery = "zeroconf" };
}

abbrev world : World ℕ
world = record { calls = []; ticks = 0 }

-- A world in which these calls raise, and the clock counts its readings.
abbrev answers : (List (Call ℕ) → Option Error) → Answers ℕ
answers raises = record {
  raises = raises;
  roles = λ _. "response" ∷ [];
  registry = λ _. null;
  result = λ _. null;
  execute_at = λ _. 0;
  offset_ms = λ _ _. 0;
  rtt_ms = λ _ _. 1;
  status = λ _ _. "READY";
  answered = λ _ _. "REGISTER_OK";
  seen_messages = λ _. [];
  session_dir = "logs";
  clock = λ n. n;
}

-- No client has a result.
abbrev no_result : List (Call ℕ) → Option Error
no_result (collect role limit ∷ cs) = some timeout
no_result _ = none

-- The service is refused.
abbrev no_service : List (Call ℕ) → Option Error
no_service (discovery_register ∷ cs) = some service_error
no_service _ = none

abbrev options : ServerOptions ℕ
options = record {
  duration = some 5;
  publish_discovery = false;
  wait_for_ready = true;
  start_session = true;
  session_id = "S001";
  trial_id = "T001";
  result_role = "response";
}

run_server_command-stops_example :
    let has = has_discovery (answers no_result) config options in
    (steps : List (Call ℕ)) × ((run_server_command (answers no_result) config options world).1.calls
      ≡ server_shutdown
        ∷ also has discovery_close
            (steps ++ also has discovery_register (server_start ∷ also has discovery_open [])))
    × All IsStep steps
run_server_command-stops_example =
    run_server_command-stops (answers no_result) config options world tt refl refl (λ cs. refl)
      (λ cs. refl) (λ cs. refl)

run_server_command-unregistered_example :
    run_server_command (answers no_service) config options world ≡ (
      err service_error,
      record world { calls = discovery_register ∷ server_start ∷ discovery_open ∷ [] },
    )
run_server_command-unregistered_example =
    run_server_command-unregistered (answers no_service) config options world service_error tt refl
      refl refl refl refl

abbrev member : ClientOptions ℕ
member = record {
  role = "response";
  client_id = "a";
  duration = some 5;
  report_on_trial_start = true;
}

abbrev peers : List Peer
peers =
    record { role = "role-0"; client_id = "client-0"; transport = memory_client "client-0" }
    ∷ record { role = "role-1"; client_id = "client-1"; transport = memory_client "client-1" }
    ∷ []

abbrev well : Answers ℕ
well = answers (λ _. none)

-- Two rounds take the clock beyond 8.
rounds_example :
    Ends
      (λ o v. CountsUpTo well tallies 2 peers no_rounds o)
      (rounds well tallies 3 peers 8 no_rounds world)
rounds_example = rounds_lem well tallies 3 2 peers 8 no_rounds world (omega arith) refl

benchmark_with-stops_example :
    (steps : List (Call ℕ)) × ((benchmark_with
        (answers no_result)
        tallies
        statistics
        3
        config
        2
        8
        peers
        world).1.calls
      ≡ server_shutdown
        ∷ closed
            (answers no_result)
            tallies
            ("client-0" ∷ "client-1" ∷ [])
            (steps ++ server_start ∷ []))
    × All IsOpen steps
benchmark_with-stops_example =
    benchmark_with-stops (answers no_result) tallies statistics 3 config 2 8 peers world refl
      (λ id cs. refl)

abbrev log : List (Heard ℕ)
log =
    record {
      ts = 7;
      kind = "send";
      peer_id = "a";
      message = sent;
      session = record (Session.snapshot Session.init) { trial_id = some "t1" };
      extra = end;
    }
    ∷ []

inspect-trial_ids_of_example :
    (trials : List String) × (trial_ids_of (map heard_row log) ≡ ok trials)
    × (inspect (map heard_row log)
        ≡ ok (
            field "rows" (nat (length log)) (
              field "kinds"
                (texts (sorted_set (map (λ e. e.kind) log)))
                (field "trial_ids" (texts (sorted_set trials)) end))))
inspect-trial_ids_of_example = inspect-trial_ids_of log

inspect-silent_example :
    inspect
      (map heard_row log ++ silent 9 "disconnect" "a" (Session.snapshot Session.init) end ∷ [])
    ≡ err attribute_error
inspect-silent_example =
    inspect-silent log 9 "disconnect" "a" (Session.snapshot Session.init) end []

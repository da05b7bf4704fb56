-- ===== src/Driver/Benchmark.antt =====
-- `run_benchmark` and `run_inmemory_benchmark` of psyexp_net/health/benchmark.py. The loop runs on
-- fuel, and `none` means that the fuel ran out.
pub mod Laws
use Prim.Native.String.{◌++◌}
use psyexp_net.Prelude.{
  String, ℕ, zero, suc, ◌+◌, Bool, true, false, Option, none, some, List, [], ◌∷◌, map,
}
use mathlib.Core.List.{◌++◌ as ◌+++◌}
use mathlib.Core.Option
use psyexp_net.Config.{AppConfig}
use psyexp_net.Config.Overrides.{normalize_local_network_config, with_network_overrides}
use psyexp_net.Driver.{
  Call, Answers, World, call, ask, now, server_start, server_shutdown, wait_until_clients_ready,
  broadcast_state, start_trial, collect, client_close,
}
use psyexp_net.Driver.Demo.{join, close}
use psyexp_net.Driver.Stack.{Peer, build_stack}
use psyexp_net.Exec.{Exec, pure, lift, for_each, try_finally, ◌>>=◌, ◌>>◌}
use psyexp_net.Floats.{Floats, of_ℕ, pos, max2, max_from}
use psyexp_net.Logging.Summary.{Statistics}
use psyexp_net.Protocol.Versioning.{IntText}
use psyexp_net.Value.{str, float, int, Fields, field, end}

-- The variables of the loop.
pub record Tally (F : Type 0) : Type 0 where
  pub control_latencies : List F
  pub broadcast_latencies : List F
  pub data_reports : ℕ
  pub iteration : ℕ

abbrev pub no_rounds : {F : Type 0} → Tally F
no_rounds = record {
  control_latencies = [];
  broadcast_latencies = [];
  data_reports = 0;
  iteration = 0;
}

module _ {F : Type 0} ⦃fl : Floats F⦄ (a : Answers F) (int_text : IntText) where
  open fl use {plus, minus, times, over, lt, lit}

  -- for peer in peers: collect and count
  unfoldable pub collect_all : List Peer → (data_reports : ℕ) → Exec (World F) ℕ
  unfolding call
  collect_all [] n = pure n
  collect_all (p ∷ ps) n = do call a (collect p.role (lit 1 1)); collect_all ps (n + 1)

  abbrev pub elapsed_ms : (started ended : F) → F
  elapsed_ms started ended = times (minus ended started) (of_ℕ 1000)

  -- the body of the loop
  unfoldable pub round : List Peer → Tally F → Exec (World F) (Tally F)
  unfolding call now collect_all
  round peers t = do
    let iteration = t.iteration + 1
    started ← now a
    call a (start_trial ("trial-" ++ int_text.print_int (pos iteration)) "+20ms")
    data_reports ← collect_all peers t.data_reports
    ended ← now a
    broadcast_started ← now a
    call a (broadcast_state (field "iteration" (int (pos iteration)) end))
    broadcast_ended ← now a
    pure (record {
      control_latencies = t.control_latencies +++ elapsed_ms started ended ∷ [];
      broadcast_latencies =
          t.broadcast_latencies +++ elapsed_ms broadcast_started broadcast_ended ∷ [];
      data_reports = data_reports;
      iteration = iteration;
    })

  -- while time.monotonic() < deadline
  unfoldable pub rounds :
      (fuel : ℕ) → List Peer → (deadline : F) → Tally F → Exec (World F) (Option (Tally F))
  unfolding now round
  rounds zero peers deadline t = pure none
  rounds (suc fuel) peers deadline t = do
    reading ← now a
    elim (lt reading deadline) [
      | true ↦ (do t' ← round peers t; rounds fuel peers deadline t')
      | false ↦ pure (some t)
    ]

  module _ (st : Statistics F) where
    -- mean(xs) if xs else 0.0, max(xs) if xs else 0.0
    abbrev pub mean_or_zero : List F → F
    mean_or_zero [] = lit 0 1
    mean_or_zero (x ∷ xs) = st.mean (x ∷ xs)

    abbrev pub max_or_zero : List F → F
    max_or_zero [] = lit 0 1
    max_or_zero (x ∷ xs) = max_from x xs

    -- what is returned; sync_rtts and sync_offsets are those of before the loop
    unfoldable pub benchmark_report :
        (backend : String) (clients : ℕ) (seconds : F) (sync_rtts sync_offsets : List F)
        → Tally F
        → Fields F
    unfolding max_from
    benchmark_report backend clients seconds sync_rtts sync_offsets t =
        field "backend" (str backend) (
          field "client_count" (float (of_ℕ clients)) (
            field "iterations" (float (of_ℕ t.iteration)) (
              field "avg_control_rtt_ms" (float (mean_or_zero t.control_latencies)) (
                field "max_control_rtt_ms" (float (max_or_zero t.control_latencies)) (
                  field "avg_broadcast_ms" (float (mean_or_zero t.broadcast_latencies)) (
                    field "max_broadcast_ms" (float (max_or_zero t.broadcast_latencies)) (
                      field "avg_sync_rtt_ms" (float (mean_or_zero sync_rtts)) (
                        field "avg_clock_offset_ms" (float (mean_or_zero sync_offsets)) (
                          field "data_reports" (float (of_ℕ t.data_reports)) (
                            field "data_reports_per_sec"
                              (float (over (of_ℕ t.data_reports) (max2 seconds (lit 1 1000))))
                              end))))))))))

    -- what is tried
    unfoldable pub measure :
        (fuel : ℕ)
        → AppConfig F
        → (clients : ℕ) (seconds : F) → List Peer
        → Exec (World F) (Option (Fields F))
    unfolding call now join for_each rounds benchmark_report
    measure fuel config clients seconds peers = do
      for_each (join a) (map (λ p. p.client_id) peers)
      call a (wait_until_clients_ready (map (λ p. p.role) peers) (lit 2 1))
      sync_rtts ← ask a (λ cs. map (λ p. a.rtt_ms p.client_id cs) peers)
      sync_offsets ← ask a (λ cs. map (λ p. a.offset_ms p.client_id cs) peers)
      begun ← now a
      t ← rounds fuel peers (plus begun seconds) no_rounds
      pure (
          Option.map
            (benchmark_report config.network.backend clients seconds sync_rtts sync_offsets) t)

    -- what is done at last
    unfoldable pub close_all : List Peer → Exec (World F) Unit
    unfolding call for_each
    close_all peers = do for_each (close a) (map (λ p. p.client_id) peers); call a server_shutdown

    -- the run from the start of the server
    unfoldable pub benchmark_with :
        (fuel : ℕ)
        → AppConfig F
        → (clients : ℕ) (seconds : F) → List Peer
        → Exec (World F) (Option (Fields F))
    unfolding call measure close_all
    benchmark_with fuel config clients seconds peers = do
      call a server_start
      (shown, closed) ← try_finally (measure fuel config clients seconds peers) (close_all peers)
      pure shown

    unfoldable pub run_benchmark :
        (fuel : ℕ) → AppConfig F → (clients : ℕ) (seconds : F) → Exec (World F) (Option (Fields F))
    unfolding normalize_local_network_config build_stack benchmark_with
    run_benchmark fuel config clients seconds = do
      config' ← lift (normalize_local_network_config config)
      stack ← lift (build_stack int_text config' clients)
      benchmark_with fuel config' clients seconds stack.peers

    unfoldable pub run_inmemory_benchmark :
        (fuel : ℕ) → AppConfig F → (clients : ℕ) (seconds : F) → Exec (World F) (Option (Fields F))
    unfolding with_network_overrides run_benchmark
    run_inmemory_benchmark fuel config clients seconds = do
      config' ← lift (with_network_overrides config (field "backend" (str "inmemory") end))
      run_benchmark fuel config' clients seconds

-- ===== src/Driver.antt =====
-- The programs that drive a server and its clients: psyexp_net/cli/main.py, health/benchmark.py and
-- examples/demo_inmemory.py. They are run on their calls of the servers, clients and services that they
-- make. What a call does is in its own module; here what it raises and gives is input, by all the
-- calls so far, newest first, itself included.
pub mod Steps
pub mod Handlers
pub mod Stack
pub mod Serving
pub mod Joining
pub mod Demo
pub mod Benchmark
pub mod Inspect
pub mod Main
use psyexp_net.Prelude.{String, ℕ, ◌+◌, Option, none, some, List, [], ◌∷◌}
use psyexp_net.Errors.{Error, Result, ok, err}
use psyexp_net.Exec.{Exec, gets}
use psyexp_net.Value.{Value, Fields}

pub data Call (F : Type 0) : Type 0 where
  -- of the ExperimentServer
  server_start server_shutdown stop_session : Call F
  wait_until_clients_ready : (roles : List String) → (timeout : F) → Call F
  start_session arm_trial end_trial : String → Call F
  broadcast_state : Fields F → Call F
  start_trial : (trial_id at : String) → Call F
  collect : (role : String) → (timeout : F) → Call F
  -- of the ExperimentClient with an id
  client_connect client_register client_sync_clock client_ready client_close : String → Call F
  report_result : (client_id : String) → Fields F → Call F
  -- of the ZeroconfDiscoveryService, its construction first
  discovery_open discovery_register discovery_close : Call F
  -- asyncio.sleep, and the wait for an event that nothing sets
  sleep : F → Call F
  wait_forever : Call F

-- Whether the last of the calls raises, an interrupt included, and what the program reads then: the
-- server's roles, table and result, the time of execution, what a client has measured, and its status.
pub record Answers (F : Type 0) : Type 0 where
  pub raises : List (Call F) → Option Error
  pub roles : List (Call F) → List String
  pub registry : List (Call F) → Value F
  pub result : List (Call F) → Value F
  pub execute_at : List (Call F) → F
  pub offset_ms : String → List (Call F) → F
  pub rtt_ms : String → List (Call F) → F
  pub status : String → List (Call F) → String
  -- the type of the answer to a client's registration
  pub answered : String → List (Call F) → String
  -- what the handlers of a client have seen
  pub seen_messages : List (Call F) → List String
  pub session_dir : String
  -- the readings of time.monotonic()
  pub clock : ℕ → F

pub record World (F : Type 0) : Type 0 where
  pub calls : List (Call F)
  pub ticks : ℕ

abbrev pub raised : Option Error → Result (Unit {0})
raised none = ok tt
raised (some e) = err e

module _ {F : Type 0} (a : Answers F) where
  unfoldable pub call : Call F → Exec (World F) Unit
  call c w = (raised (a.raises (c ∷ w.calls)), record w { calls = c ∷ w.calls })

  abbrev pub ask : {A : Type 0} → (List (Call F) → A) → Exec (World F) A
  ask f = gets (λ w. f w.calls)

  -- time.monotonic()
  unfoldable pub now : Exec (World F) F
  now w = (ok (a.clock w.ticks), record w { ticks = w.ticks + 1 })

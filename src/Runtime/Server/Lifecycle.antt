-- ===== src/Runtime/Server/Lifecycle.antt =====
-- How a server of psyexp_net/runtime/server.py begins and ends: `__init__`, `start` and `shutdown`, and
-- the `close` of its recorder. What the transport's `start` and `stop` come to is input.
pub mod Laws
use psyexp_net.Prelude.{String, Bool, true, false, Option, none, some, List, []}
use psyexp_net.Config.{AppConfig}
use psyexp_net.Errors.{Result, ok, err}
use psyexp_net.Exec.{Exec, lift, modify, gets, ◌>>=◌, ◌>>◌}
use psyexp_net.Floats.{Floats}
use psyexp_net.Logging.Metrics
use psyexp_net.Logging.Recorder.{EventRecorder}
use psyexp_net.Logging.Summary.{Statistics, write_summary, metrics_snapshot}
use psyexp_net.Protocol.Versioning.{IntText}
use psyexp_net.Runtime.Registry
use psyexp_net.Runtime.Server.Handlers.{serve_loop, Yield}
use psyexp_net.Runtime.Server.State.{Server, Env}
use psyexp_net.Runtime.Session
use psyexp_net.Runtime.Task.{Task, not_made, live, ended, stop_task}
use psyexp_net.Value.{Value, arr, obj, items, Fields, field, end}

-- the task, once its loop has come to this: a loop that has not raised goes on
abbrev pub task_of : Result (Unit {0}) → Task
task_of (ok u) = live
task_of (err e) = ended (err e)

-- A server with its task, its transport and its recorder's files.
pub record Hosted (F : Type 0) : Type 0 where
  pub server : Server F
  pub running : Bool
  pub serve_task : Task
  pub transport_open : Bool
  -- summary.json, once it is written, and whether the log is open
  pub summary_file : Option (Fields F)
  pub log_open : Bool

module _ {F : Type 0} where
  -- `__init__`, with the recorder that it is given or makes
  unfoldable pub new : AppConfig F → EventRecorder F → Env F → Hosted F
  new config recorder env = record {
    server = record {
      config = config;
      registry = [];
      session = Session.init;
      metrics = Metrics.new;
      recorder = recorder;
      pending_acks = record { timeout_ms = config.protocol.ack_timeout_ms; pending = [] };
      results = [];
      message_tracking = [];
      command_groups = [];
      env = env;
    };
    running = false;
    serve_task = not_made;
    transport_open = false;
    summary_file = none;
    log_open = true;
  }

  -- `start`
  unfoldable pub start : (opened : Result (Unit {0})) → Exec (Hosted F) Unit
  start opened = do
    lift opened
    modify (λ h. record h { transport_open = true })
    modify (λ h. record h { running = true; serve_task = live })

module _ {F : Type 0} ⦃fl : Floats F⦄ (text : IntText) where
  -- The task of `_serve_loop` over what the transport yields.
  unfoldable pub run_task : List (Yield F) → Hosted F → Hosted F
  unfolding serve_loop
  run_task events h =
      let (r, server) = serve_loop text events h.server in
      record h { server = server; serve_task = task_of r }

module _ {F : Type 0} ⦃fl : Floats F⦄ (st : Statistics F) (session_dir : String) where
  -- what `shutdown` adds to the summary
  abbrev pub last_words : (transport_metrics : Fields F) → Server F → Fields F
  last_words transport_metrics s = field "metrics" (obj (metrics_snapshot st s.metrics)) (
      field "transport_metrics" (obj transport_metrics) (
        field "registry" (arr (items (Registry.snapshot s.registry)))
          (field "session" (obj (Session.as_dict (Session.snapshot s.session))) end)))

  -- `EventRecorder.close`
  unfoldable pub close_recorder : (extra : Fields F) → Exec (Hosted F) Unit
  unfolding write_summary
  close_recorder extra = modify (λ h. record h {
    summary_file = some (write_summary session_dir extra h.server.recorder);
    log_open = false;
  })

  -- `shutdown`
  unfoldable pub shutdown :
      (stopped : Result (Unit {0})) → (transport_metrics : Fields F) → Exec (Hosted F) Unit
  unfolding stop_task close_recorder metrics_snapshot Registry.snapshot Session.as_dict
  shutdown stopped transport_metrics = do
    modify (λ h. record h { running = false })
    task ← gets (λ h. h.serve_task)
    lift (stop_task task)
    lift stopped
    modify (λ h. record h { transport_open = false })
    server ← gets (λ h. h.server)
    close_recorder (last_words transport_metrics server)

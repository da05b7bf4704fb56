-- ===== src/Runtime/Server/Lifecycle/Laws.antt =====
-- What `shutdown` of psyexp_net/runtime/server.py leaves, after whatever the server received.
use psyexp_net.Prelude.{String, false, some, List, ◌≡◌, refl, inl, inr}
use psyexp_net.Errors.{Result, ok, err, Result-cases}
use psyexp_net.Floats.{Floats}
use psyexp_net.Logging.Summary.{Statistics, write_summary}
use psyexp_net.Protocol.Versioning.{IntText}
use psyexp_net.Runtime.Server.Handlers.{serve_loop, Yield}
use psyexp_net.Runtime.Server.Lifecycle.{
  Hosted, task_of, run_task, last_words, close_recorder, shutdown,
}
use psyexp_net.Runtime.Server.State.{Server}
use psyexp_net.Runtime.Task.{stop_task, live}
use psyexp_net.Value.{Fields}

module _ {F : Type 0} ⦃fl : Floats F⦄ (st : Statistics F) (dir : String) where
  -- the server that is wholly shut down, and the one whose shutdown stopped at its task
  abbrev pub closed : Fields F → Server F → Hosted F → Hosted F
  closed transport_metrics s h = record h {
    server = s;
    running = false;
    serve_task = live;
    transport_open = false;
    summary_file = some (write_summary dir (last_words st dir transport_metrics s) s.recorder);
    log_open = false;
  }

  abbrev pub half_closed : Result (Unit {0}) → Server F → Hosted F → Hosted F
  half_closed r s h = record h { server = s; running = false; serve_task = task_of r }

module _ {F : Type 0} ⦃fl : Floats F⦄ (text : IntText) (st : Statistics F) (dir : String) where
  -- Whatever a server's transport yielded, messages, timeouts and exceptions, if the transport can be
  -- stopped: if nothing ended the server's loop, `shutdown` stops the transport, writes the summary of what the server then has and closes
  -- the log. If an exception ended the loop, `shutdown` raises the same and does none of this.
  pub shutdown-run_task :
      (events : List (Yield F)) (transport_metrics : Fields F) (h : Hosted F)
      → let o = serve_loop text events h.server in
        shutdown st dir (ok tt) transport_metrics (run_task text events h) ≡ (
          o.0,
          elim o.0 [
            | ok u ↦ closed st dir transport_metrics o.1 h
            | err e ↦ half_closed st dir (err e) o.1 h
          ],
        )
  unfolding shutdown run_task close_recorder stop_task
  shutdown-run_task events transport_metrics h =
      elim (Result-cases (serve_loop text events h.server).0) [
        | inl (u, e) ↦ rw e refl
        | inr (x, e) ↦ rw e refl
      ]

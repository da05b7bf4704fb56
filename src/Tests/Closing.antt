-- ===== src/Tests/Closing.antt =====
-- The end of a server of psyexp_net/runtime/server.py whose loop an ACK without reply_to has ended.
use psyexp_net.Prelude.{ℕ, true, some, none, List, [], ◌∷◌, ◌≡◌}
use psyexp_net.Enums.{MessageType}
use psyexp_net.Errors.{ok, err}
use psyexp_net.Runtime.Server.Handlers.{serve_loop, Yield}
use psyexp_net.Runtime.Server.Lifecycle.{Hosted, run_task, shutdown}
use psyexp_net.Runtime.Server.Lifecycle.Laws.{closed, half_closed, shutdown-run_task}
use psyexp_net.Runtime.Task.{live}
use psyexp_net.Tests.World.{nat_floats, tallies, server, message, statistics}
use psyexp_net.Value.{end}

abbrev malformed : List (Yield ℕ)
malformed =
    ok (some (record { peer_id = "a"; message = message MessageType.ack end; channel = "control" }))
    ∷ []

abbrev hosted : Hosted ℕ
hosted = record {
  server = server;
  running = true;
  serve_task = live;
  transport_open = true;
  summary_file = none;
  log_open = true;
}

shutdown-run_task_example :
    let o = serve_loop tallies malformed server in
    shutdown statistics "logs" (ok tt) end (run_task tallies malformed hosted) ≡ (
      o.0,
      elim o.0 [
        | ok u ↦ closed statistics "logs" end o.1 hosted
        | err e ↦ half_closed statistics "logs" (err e) o.1 hosted
      ],
    )
shutdown-run_task_example = shutdown-run_task tallies statistics "logs" malformed end hosted

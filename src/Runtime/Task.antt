-- ===== src/Runtime/Task.antt =====
-- The asyncio tasks of psyexp_net/runtime/server.py and client.py, by what is seen when they are stopped.
use psyexp_net.Errors.{Result, ok}

-- A task that is not made yet; one that runs; one that has ended, with what it came to.
pub data Task : Type 0 where
  not_made live : Task
  ended : Result (Unit {0}) → Task

-- if task is not None: task.cancel(), and the wait for it under suppress(CancelledError). A task that
-- has ended is not cancelled: what it raised is raised again.
unfoldable pub stop_task : Task → Result (Unit {0})
stop_task not_made = ok tt
stop_task live = ok tt
stop_task (ended r) = r

-- ===== src/Runtime/Client/Lifecycle.antt =====
-- How a client of psyexp_net/runtime/client.py begins and ends, and its heartbeat.
use psyexp_net.Prelude.{
  String, ℕ, ◌+◌, ◌/◌, ◌%◌, max, true, false, not, ◌&&◌, ◌||◌, Option, none, some, [], ◌∷◌, ◌++◌,
  nat_eq, ◌==◌, string_eq, if◌then◌else◌,
}
use psyexp_net.Prelude.Dict
use psyexp_net.Config.{AppConfig}
use psyexp_net.Enums.{MessageType, ClientStatus, client_status_value}
use psyexp_net.Exec.{Exec, pure, lift, modify, gets, ◌>>=◌, ◌>>◌}
use psyexp_net.Floats.{Floats, seconds, max2}
use psyexp_net.Logging.Metrics.{list_of}
use psyexp_net.Runtime.Client.Receive.{Wait, begin_reconnect}
use psyexp_net.Runtime.Client.Requests.{begin_sync, send_status}
use psyexp_net.Runtime.Client.State.{Client, Env, started, stopped, act, set_status, send}
use psyexp_net.Runtime.Session
use psyexp_net.Runtime.Task.{Task, live, stop_task}
use psyexp_net.Value.{str, float, field, end}

-- client_secret, or the configured one
abbrev pub resolved_secret : Option String → Option String → Option String
resolved_secret none configured = configured
resolved_secret (some s) configured = some s

module _ {F : Type 0} where
  -- `connect`, with the tasks of the receive loop and of the heartbeat that it makes
  unfoldable pub connect : Exec (Client F) (Task × Task)
  unfolding act set_status
  connect = do
    act started
    set_status (client_status_value ClientStatus.connected)
    modify (λ c. record c { running = true; closing = false })
    pure (live, live)

  -- `close`, with the tasks of the receive loop and of the heartbeat as they are then
  unfoldable pub close : (loop_task heartbeat_task : Task) → Exec (Client F) Unit
  unfolding act set_status stop_task
  close loop_task heartbeat_task = do
    modify (λ c. record c { running = false; closing = true })
    lift (stop_task loop_task)
    lift (stop_task heartbeat_task)
    act stopped
    set_status (client_status_value ClientStatus.disconnected)

  -- `on`: a handler comes behind those that are there
  unfoldable pub on : (message_type : String) (handler : ℕ) → Exec (Client F) Unit
  on message_type handler = modify (λ c. record c {
    handlers =
        Dict.put message_type (list_of (Dict.get message_type c.handlers) ++ handler ∷ [])
          c.handlers;
  })

  -- max(1, int(timeout / max(interval, 1)))
  abbrev pub sync_every : AppConfig F → ℕ
  sync_every config =
      max 1 (config.network.heartbeat_timeout_ms / max config.network.heartbeat_interval_ms 1)

  -- Behind the sleep of one round of `_heartbeat_loop`: the heartbeat, and in every so many rounds
  -- the begin of a `sync_clock`, with its t0 and its future.
  unfoldable pub beat : (ticks : ℕ) → Exec (Client F) (Option (F × ℕ))
  unfolding send begin_sync
  beat ticks = do
    status ← gets (λ c. c.status)
    offset_ms ← gets (λ c. c.offset_ms)
    rtt_ms ← gets (λ c. c.rtt_ms)
    send MessageType.heartbeat (
        field "status" (str status)
          (field "offset_ms" (float offset_ms) (field "rtt_ms" (float rtt_ms) end)))
    config ← gets (λ c. c.config)
    if (ticks + 1) % sync_every config == 0
        then begin_sync >>= (λ request. pure (some request))
        else pure none

module _ {F : Type 0} where
  unfoldable pub degrade : Exec (Client F) Unit
  unfolding set_status send_status
  degrade = do
    set_status (client_status_value ClientStatus.degraded)
    send_status (client_status_value ClientStatus.degraded)

module _ {F : Type 0} ⦃fl : Floats F⦄ where
  open fl use {lit, lt, abs}

  -- `ExperimentClient(config, role=..., client_id=..., client_secret=...)`, with its identity's uuid
  abbrev pub new :
      AppConfig F → (role client_id instance_uuid : String) → Option String → Env F → Client F
  new config role client_id instance_uuid client_secret env = record {
    config = config;
    role = role;
    client_id = client_id;
    identity = record {
      client_id = client_id;
      role = role;
      instance_uuid = instance_uuid;
      client_secret =
          resolved_secret client_secret (Dict.get client_id config.security.shared_secrets);
    };
    status = client_status_value ClientStatus.discovered;
    offset_ms = lit 0 1;
    rtt_ms = lit 0 1;
    session = Session.init;
    registry_snapshot = [];
    negotiated_protocol_version = config.protocol.version;
    negotiated_capabilities = [];
    handlers = [];
    dedupe = record { max_size = config.protocol.dedup_cache_size; items = [] };
    responses = [];
    running = false;
    closing = false;
    reconnect_locked = false;
    env = env;
  }

  -- interval_s
  abbrev pub interval : AppConfig F → F
  interval config = max2 (seconds config.network.heartbeat_interval_ms) (lit 5 100)

  -- Behind the `sync_clock` of a heartbeat: a client beyond its limits says that it is DEGRADED.
  unfoldable pub check_limits : Exec (Client F) Unit
  unfolding degrade
  check_limits = do
    limits ← gets (λ c. c.config.timing)
    offset_ms ← gets (λ c. c.offset_ms)
    rtt_ms ← gets (λ c. c.rtt_ms)
    if lt limits.max_clock_offset_ms (abs offset_ms) || lt limits.max_rtt_ms rtt_ms
        then degrade
        else pure tt

  -- Where a heartbeat raised, `except Exception`: `reconnect` up to its first wait.
  unfoldable pub heartbeat_failed : Exec (Client F) (Option Wait)
  unfolding begin_reconnect
  heartbeat_failed = do
    running ← gets (λ c. c.running)
    closing ← gets (λ c. c.closing)
    if running && not closing then begin_reconnect else pure none

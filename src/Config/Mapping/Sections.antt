-- ===== src/Config/Mapping/Sections.antt =====
-- The sections of a configuration of psyexp_net/config.py as mappings, and back. A field of another
-- type than its class declares is a TypeError here, where Python would keep the value.
use psyexp_net.Prelude.{String, ℕ, List, [], ◌∷◌, map, string_eq, if◌then◌else◌}
use psyexp_net.Prelude.Dict.{Dict}
use psyexp_net.Config.{
  NetworkConfig, ProtocolConfig, TimingConfig, SecurityConfig, LoggingConfig, ExperimentConfig,
  HealthConfig, default_config,
}
use psyexp_net.Errors.{Result, ok, err, type_error, key_error, need, ◌>>=◌}
use psyexp_net.Floats.{Floats, pos}
use psyexp_net.Value.{Value, bool, int, float, str, arr, obj, items, Fields, field, end, lookup}
use psyexp_net.Value.Typed.{as_str, as_ℕ, as_bool, as_fields, as_str_list, keyword, only}

module _ {F : Type 0} where
  abbrev pub nat : ℕ → Value F
  nat n = int (pos n)

  abbrev pub texts : List String → Value F
  texts ts = arr (items (map str ts))

  abbrev pub secret_fields : Dict String String → Fields F
  secret_fields [] = end
  secret_fields ((k, s) ∷ d) = field k (str s) (secret_fields d)

  abbrev pub secrets : Dict String String → Value F
  secrets d = obj (secret_fields d)

  abbrev pub secrets_of : Fields F → Result (Dict String String)
  secrets_of end = ok []
  secrets_of (field k v d) = do s ← as_str v; rest ← secrets_of d; ok ((k, s) ∷ rest)

  abbrev pub as_secrets : Value F → Result (Dict String String)
  as_secrets (obj d) = secrets_of d
  as_secrets _ = err type_error

  -- merged["network"], which must be a mapping to be spread into keywords
  abbrev pub section : String → Fields F → Result (Fields F)
  section k d = do v ← need key_error (lookup k d); as_fields v

  -- Cls(**d) refuses a keyword that the class does not have.
  abbrev pub known : List String → Fields F → Result (Unit {0})
  known ks d = if only ks d then ok tt else err type_error

  abbrev pub network_dict : NetworkConfig → Fields F
  network_dict c = field "backend" (str c.backend) (
      field "host" (str c.host) (
        field "bind_host" (str c.bind_host) (
          field "control_port" (nat c.control_port) (
            field "pub_port" (nat c.pub_port) (
              field "discovery" (str c.discovery) (
                field "send_hwm" (nat c.send_hwm) (
                  field "recv_hwm" (nat c.recv_hwm) (
                    field "linger_ms" (nat c.linger_ms) (
                      field "heartbeat_interval_ms" (nat c.heartbeat_interval_ms) (
                        field "heartbeat_timeout_ms" (nat c.heartbeat_timeout_ms) (
                          field "connect_timeout_ms" (nat c.connect_timeout_ms) (
                            field "tcp_keepalive" (bool c.tcp_keepalive) (
                              field "immediate" (bool c.immediate) (
                                field "router_mandatory" (bool c.router_mandatory) (
                                  field "router_handover" (bool c.router_handover)
                                    end)))))))))))))))

  abbrev pub protocol_dict : ProtocolConfig → Fields F
  protocol_dict c = field "version" (str c.version) (
      field "payload_codec" (str c.payload_codec) (
        field "ack_timeout_ms" (nat c.ack_timeout_ms) (
          field "max_retries" (nat c.max_retries)
            (field "dedup_cache_size" (nat c.dedup_cache_size) end))))

  abbrev pub timing_dict : TimingConfig F → Fields F
  timing_dict c = field "max_rtt_ms" (float c.max_rtt_ms) (
      field "max_jitter_ms" (float c.max_jitter_ms) (
        field "max_apply_skew_ms" (float c.max_apply_skew_ms) (
          field "max_clock_offset_ms" (float c.max_clock_offset_ms) (
            field "default_lead_time_ms" (nat c.default_lead_time_ms)
              (field "ping_history_size" (nat c.ping_history_size) end)))))

  abbrev pub security_dict : SecurityConfig → Fields F
  security_dict c = field "mode" (str c.mode) (
      field "require_secret" (bool c.require_secret)
        (field "shared_secrets" (secrets c.shared_secrets) end))

  abbrev pub logging_dict : LoggingConfig → Fields F
  logging_dict c = field "level" (str c.level) (
      field "base_dir" (str c.base_dir)
        (field "jsonl" (bool c.jsonl) (field "log_payload" (bool c.log_payload) end)))

  abbrev pub experiment_dict : ExperimentConfig → Fields F
  experiment_dict c = field "session_name" (str c.session_name) (
      field "experiment_profile" (str c.experiment_profile)
        (field "required_roles" (texts c.required_roles) end))

  abbrev pub health_dict : HealthConfig → Fields F
  health_dict c =
      field "benchmark_ping_count" (nat c.benchmark_ping_count)
        (field "benchmark_message_size" (nat c.benchmark_message_size) end)

module _ {F : Type 0} ⦃fl : Floats F⦄ where
  open fl use {of_ℤ}

  -- A float, or an int, which the program uses as one.
  abbrev pub as_float : Value F → Result F
  as_float (float x) = ok x
  as_float (int n) = ok (of_ℤ n)
  as_float _ = err type_error

  -- NetworkConfig(**d), and so on
  unfoldable pub network_of : Fields F → Result NetworkConfig
  network_of d = do
    _ ←
        known
          ("backend" ∷ "host" ∷ "bind_host" ∷ "control_port" ∷ "pub_port" ∷ "discovery" ∷ "send_hwm"
            ∷ "recv_hwm" ∷ "linger_ms" ∷ "heartbeat_interval_ms" ∷ "heartbeat_timeout_ms"
            ∷ "connect_timeout_ms" ∷ "tcp_keepalive" ∷ "immediate" ∷ "router_mandatory"
            ∷ "router_handover" ∷ [])
          d
    backend ← keyword as_str (default_config {F = F}).network.backend (lookup "backend" d)
    host ← keyword as_str (default_config {F = F}).network.host (lookup "host" d)
    bind_host ← keyword as_str (default_config {F = F}).network.bind_host (lookup "bind_host" d)
    control_port ←
        keyword as_ℕ (default_config {F = F}).network.control_port (lookup "control_port" d)
    pub_port ← keyword as_ℕ (default_config {F = F}).network.pub_port (lookup "pub_port" d)
    discovery ← keyword as_str (default_config {F = F}).network.discovery (lookup "discovery" d)
    send_hwm ← keyword as_ℕ (default_config {F = F}).network.send_hwm (lookup "send_hwm" d)
    recv_hwm ← keyword as_ℕ (default_config {F = F}).network.recv_hwm (lookup "recv_hwm" d)
    linger_ms ← keyword as_ℕ (default_config {F = F}).network.linger_ms (lookup "linger_ms" d)
    heartbeat_interval_ms ←
        keyword as_ℕ (default_config {F = F}).network.heartbeat_interval_ms
          (lookup "heartbeat_interval_ms" d)
    heartbeat_timeout_ms ←
        keyword as_ℕ (default_config {F = F}).network.heartbeat_timeout_ms
          (lookup "heartbeat_timeout_ms" d)
    connect_timeout_ms ←
        keyword as_ℕ (default_config {F = F}).network.connect_timeout_ms
          (lookup "connect_timeout_ms" d)
    tcp_keepalive ←
        keyword as_bool (default_config {F = F}).network.tcp_keepalive (lookup "tcp_keepalive" d)
    immediate ← keyword as_bool (default_config {F = F}).network.immediate (lookup "immediate" d)
    router_mandatory ←
        keyword as_bool (default_config {F = F}).network.router_mandatory
          (lookup "router_mandatory" d)
    router_handover ←
        keyword as_bool (default_config {F = F}).network.router_handover
          (lookup "router_handover" d)
    ok (record {
      backend = backend;
      host = host;
      bind_host = bind_host;
      control_port = control_port;
      pub_port = pub_port;
      discovery = discovery;
      send_hwm = send_hwm;
      recv_hwm = recv_hwm;
      linger_ms = linger_ms;
      heartbeat_interval_ms = heartbeat_interval_ms;
      heartbeat_timeout_ms = heartbeat_timeout_ms;
      connect_timeout_ms = connect_timeout_ms;
      tcp_keepalive = tcp_keepalive;
      immediate = immediate;
      router_mandatory = router_mandatory;
      router_handover = router_handover;
    })

  unfoldable pub protocol_of : Fields F → Result ProtocolConfig
  protocol_of d = do
    _ ←
        known
          ("version" ∷ "payload_codec" ∷ "ack_timeout_ms" ∷ "max_retries" ∷ "dedup_cache_size" ∷ [])
          d
    version ← keyword as_str (default_config {F = F}).protocol.version (lookup "version" d)
    payload_codec ←
        keyword as_str (default_config {F = F}).protocol.payload_codec (lookup "payload_codec" d)
    ack_timeout_ms ←
        keyword as_ℕ (default_config {F = F}).protocol.ack_timeout_ms (lookup "ack_timeout_ms" d)
    max_retries ←
        keyword as_ℕ (default_config {F = F}).protocol.max_retries (lookup "max_retries" d)
    dedup_cache_size ←
        keyword as_ℕ (default_config {F = F}).protocol.dedup_cache_size
          (lookup "dedup_cache_size" d)
    ok (record {
      version = version;
      payload_codec = payload_codec;
      ack_timeout_ms = ack_timeout_ms;
      max_retries = max_retries;
      dedup_cache_size = dedup_cache_size;
    })

  unfoldable pub timing_of : Fields F → Result (TimingConfig F)
  timing_of d = do
    _ ←
        known
          ("max_rtt_ms" ∷ "max_jitter_ms" ∷ "max_apply_skew_ms" ∷ "max_clock_offset_ms"
            ∷ "default_lead_time_ms" ∷ "ping_history_size" ∷ [])
          d
    max_rtt_ms ← keyword as_float (default_config {F = F}).timing.max_rtt_ms (lookup "max_rtt_ms" d)
    max_jitter_ms ←
        keyword as_float (default_config {F = F}).timing.max_jitter_ms (lookup "max_jitter_ms" d)
    max_apply_skew_ms ←
        keyword as_float (default_config {F = F}).timing.max_apply_skew_ms
          (lookup "max_apply_skew_ms" d)
    max_clock_offset_ms ←
        keyword as_float (default_config {F = F}).timing.max_clock_offset_ms
          (lookup "max_clock_offset_ms" d)
    default_lead_time_ms ←
        keyword as_ℕ (default_config {F = F}).timing.default_lead_time_ms
          (lookup "default_lead_time_ms" d)
    ping_history_size ←
        keyword as_ℕ (default_config {F = F}).timing.ping_history_size
          (lookup "ping_history_size" d)
    ok (record {
      max_rtt_ms = max_rtt_ms;
      max_jitter_ms = max_jitter_ms;
      max_apply_skew_ms = max_apply_skew_ms;
      max_clock_offset_ms = max_clock_offset_ms;
      default_lead_time_ms = default_lead_time_ms;
      ping_history_size = ping_history_size;
    })

  unfoldable pub security_of : Fields F → Result SecurityConfig
  security_of d = do
    _ ← known ("mode" ∷ "require_secret" ∷ "shared_secrets" ∷ []) d
    mode ← keyword as_str (default_config {F = F}).security.mode (lookup "mode" d)
    require_secret ←
        keyword as_bool (default_config {F = F}).security.require_secret (lookup "require_secret" d)
    shared_secrets ←
        keyword as_secrets (default_config {F = F}).security.shared_secrets
          (lookup "shared_secrets" d)
    ok (record { mode = mode; require_secret = require_secret; shared_secrets = shared_secrets })

  unfoldable pub logging_of : Fields F → Result LoggingConfig
  logging_of d = do
    _ ← known ("level" ∷ "base_dir" ∷ "jsonl" ∷ "log_payload" ∷ []) d
    level ← keyword as_str (default_config {F = F}).logging.level (lookup "level" d)
    base_dir ← keyword as_str (default_config {F = F}).logging.base_dir (lookup "base_dir" d)
    jsonl ← keyword as_bool (default_config {F = F}).logging.jsonl (lookup "jsonl" d)
    log_payload ←
        keyword as_bool (default_config {F = F}).logging.log_payload (lookup "log_payload" d)
    ok (record { level = level; base_dir = base_dir; jsonl = jsonl; log_payload = log_payload })

  unfoldable pub experiment_of : Fields F → Result ExperimentConfig
  experiment_of d = do
    _ ← known ("session_name" ∷ "experiment_profile" ∷ "required_roles" ∷ []) d
    session_name ←
        keyword as_str (default_config {F = F}).experiment.session_name (lookup "session_name" d)
    experiment_profile ←
        keyword as_str (default_config {F = F}).experiment.experiment_profile
          (lookup "experiment_profile" d)
    required_roles ←
        keyword as_str_list (default_config {F = F}).experiment.required_roles
          (lookup "required_roles" d)
    ok (record {
      session_name = session_name;
      experiment_profile = experiment_profile;
      required_roles = required_roles;
    })

  unfoldable pub health_of : Fields F → Result HealthConfig
  health_of d = do
    _ ← known ("benchmark_ping_count" ∷ "benchmark_message_size" ∷ []) d
    benchmark_ping_count ←
        keyword as_ℕ (default_config {F = F}).health.benchmark_ping_count
          (lookup "benchmark_ping_count" d)
    benchmark_message_size ←
        keyword as_ℕ (default_config {F = F}).health.benchmark_message_size
          (lookup "benchmark_message_size" d)
    ok (record {
      benchmark_ping_count = benchmark_ping_count;
      benchmark_message_size = benchmark_message_size;
    })

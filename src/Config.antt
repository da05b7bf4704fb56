-- ===== src/Config.antt =====
-- psyexp_net/config.py: the sections of the configuration and their defaults. Whole numbers are not
-- negative.
pub mod Mapping
pub mod Merge
pub mod Overrides
pub mod Sources
use psyexp_net.Prelude.{String, ℕ, Bool, true, false, List, []}
use psyexp_net.Prelude.Dict.{Dict}
use psyexp_net.Floats.{Floats}

pub record NetworkConfig : Type 0 where
  pub backend : String
  pub host : String
  pub bind_host : String
  pub control_port : ℕ
  pub pub_port : ℕ
  pub discovery : String
  pub send_hwm : ℕ
  pub recv_hwm : ℕ
  pub linger_ms : ℕ
  pub heartbeat_interval_ms : ℕ
  pub heartbeat_timeout_ms : ℕ
  pub connect_timeout_ms : ℕ
  pub tcp_keepalive : Bool
  pub immediate : Bool
  pub router_mandatory : Bool
  pub router_handover : Bool

pub record ProtocolConfig : Type 0 where
  pub version : String
  pub payload_codec : String
  pub ack_timeout_ms : ℕ
  pub max_retries : ℕ
  pub dedup_cache_size : ℕ

pub record TimingConfig (F : Type 0) : Type 0 where
  pub max_rtt_ms : F
  pub max_jitter_ms : F
  pub max_apply_skew_ms : F
  pub max_clock_offset_ms : F
  pub default_lead_time_ms : ℕ
  pub ping_history_size : ℕ

pub record SecurityConfig : Type 0 where
  pub mode : String
  pub require_secret : Bool
  pub shared_secrets : Dict String String

pub record LoggingConfig : Type 0 where
  pub level : String
  pub base_dir : String
  pub jsonl : Bool
  pub log_payload : Bool

pub record ExperimentConfig : Type 0 where
  pub session_name : String
  pub experiment_profile : String
  pub required_roles : List String

pub record HealthConfig : Type 0 where
  pub benchmark_ping_count : ℕ
  pub benchmark_message_size : ℕ

pub record AppConfig (F : Type 0) : Type 0 where
  pub network : NetworkConfig
  pub protocol : ProtocolConfig
  pub timing : TimingConfig F
  pub security : SecurityConfig
  pub logging : LoggingConfig
  pub experiment : ExperimentConfig
  pub health : HealthConfig

-- `AppConfig()`
module _ {F : Type 0} ⦃fl : Floats F⦄ where
  open fl use {lit}

  abbrev pub default_config : AppConfig F
  default_config = record {
    network = record {
      backend = "inmemory";
      host = "0.0.0.0";
      bind_host = "0.0.0.0";
      control_port = 5555;
      pub_port = 5556;
      discovery = "manual";
      send_hwm = 1000;
      recv_hwm = 1000;
      linger_ms = 100;
      heartbeat_interval_ms = 500;
      heartbeat_timeout_ms = 2000;
      connect_timeout_ms = 2000;
      tcp_keepalive = true;
      immediate = true;
      router_mandatory = true;
      router_handover = true;
    };
    protocol = record {
      version = "1.0";
      payload_codec = "json";
      ack_timeout_ms = 800;
      max_retries = 3;
      dedup_cache_size = 512;
    };
    timing = record {
      max_rtt_ms = lit 300 10;
      max_jitter_ms = lit 100 10;
      max_apply_skew_ms = lit 200 10;
      max_clock_offset_ms = lit 150 10;
      default_lead_time_ms = 120;
      ping_history_size = 32;
    };
    security = record { mode = "trusted_lan"; require_secret = false; shared_secrets = [] };
    logging = record {
      level = "INFO";
      base_dir = ".psyexp_net/sessions";
      jsonl = true;
      log_payload = false;
    };
    experiment = record {
      session_name = "default-session";
      experiment_profile = "default";
      required_roles = [];
    };
    health = record { benchmark_ping_count = 25; benchmark_message_size = 256 };
  }

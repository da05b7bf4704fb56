-- ===== src/Config/Overrides/Laws.antt =====
-- What the changes of psyexp_net/health/benchmark.py, psyexp_net/health/doctor.py and
-- psyexp_net/cli/main.py make of a configuration.
use psyexp_net.Prelude.{
  String, ℕ, Option, none, some, ◌≡◌, refl, inl, inr, Bool-cases, ◌==◌, string_eq, if◌then◌else◌,
}
use psyexp_net.Prelude.Dict
use psyexp_net.Config.{AppConfig}
use psyexp_net.Config.Mapping.Laws.{from_mapping-to_dict}
use psyexp_net.Config.Overrides.{
  is_wildcard, loopback, with_network_overrides, normalize_loopback_network,
  normalize_local_network_config, apply_backend_override, make_probe_config,
}
use psyexp_net.Errors.{ok}
use psyexp_net.Floats.{Floats}
use psyexp_net.Value.{put_field, put_fields}

module _ {F : Type 0} ⦃fl : Floats F⦄ where
  -- The configuration on loopback addresses.
  abbrev pub on_loopback : AppConfig F → AppConfig F
  on_loopback c = record c {
    network = record c.network {
      host = loopback c.network.host;
      bind_host = loopback c.network.bind_host;
    };
  }

  abbrev host_only : AppConfig F → AppConfig F
  host_only c = record c { network = record c.network { host = "127.0.0.1" } }

  abbrev bind_only : AppConfig F → AppConfig F
  bind_only c = record c { network = record c.network { bind_host = "127.0.0.1" } }

  abbrev both : AppConfig F → AppConfig F
  both c = host_only (bind_only c)

  -- After the normalization of a configuration no address to connect or bind to is a wildcard,
  -- neither host is changed otherwise, and the rest of the configuration is as it was.
  pub normalize_loopback_network_lem :
      (c : AppConfig F)
      → Dict.Distinct c.security.shared_secrets
      → normalize_loopback_network c ≡ ok (on_loopback c)
  unfolding normalize_loopback_network with_network_overrides put_field put_fields
  normalize_loopback_network_lem c d = elim (Bool-cases (is_wildcard c.network.host)) [
    | inl h ↦ elim (Bool-cases (is_wildcard c.network.bind_host)) [
      | inl b ↦ rw (h, b) (from_mapping-to_dict (both c) d)
      | inr b ↦ rw (h, b) (from_mapping-to_dict (host_only c) d)
    ]
    | inr h ↦ elim (Bool-cases (is_wildcard c.network.bind_host)) [
      | inl b ↦ rw (h, b) (from_mapping-to_dict (bind_only c) d)
      | inr b ↦ rw (h, b) refl
    ]
  ]

  -- The in-process benchmark runs on loopback addresses if the transport is ZeroMQ, and on the
  -- configuration as given otherwise. No client id has two shared secrets.
  pub normalize_local_network_config_lem :
      (c : AppConfig F)
      → Dict.Distinct c.security.shared_secrets
      → normalize_local_network_config c
        ≡ ok (if c.network.backend == "zmq" then on_loopback c else c)
  unfolding normalize_local_network_config
  normalize_local_network_config_lem c d = elim (Bool-cases (c.network.backend == "zmq")) [
    | inl z ↦ rw z (normalize_loopback_network_lem c d)
    | inr z ↦ rw z refl
  ]

  -- The probe of the doctor connects to the target, on loopback if it is a wildcard, at the given
  -- port and the broadcast port that discovery found, or else its own; the rest of the configuration
  -- is as it was. No client id has two shared secrets.
  pub make_probe_config_lem :
      (c : AppConfig F) (target : String) (port : ℕ) (discovered : Option ℕ)
      → Dict.Distinct c.security.shared_secrets
      → make_probe_config c target port discovered
        ≡ ok (record c {
          network = record c.network {
            host = loopback target;
            control_port = port;
            pub_port = elim discovered [ none ↦ c.network.pub_port | some n ↦ n ];
          };
        })
  unfolding make_probe_config put_field
  make_probe_config_lem c target port discovered d = from_mapping-to_dict _ d

  pub apply_backend_override_lem :
      (c : AppConfig F) (backend : String)
      → Dict.Distinct c.security.shared_secrets
      → apply_backend_override c (some backend)
        ≡ ok (record c { network = record c.network { backend = backend } })
  unfolding apply_backend_override put_field
  apply_backend_override_lem c backend d = from_mapping-to_dict _ d

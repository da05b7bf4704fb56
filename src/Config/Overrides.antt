-- ===== src/Config/Overrides.antt =====
-- The changes of a configuration that the tools make before they run: psyexp_net/health/benchmark.py,
-- psyexp_net/health/doctor.py and psyexp_net/cli/main.py. Each goes through the mapping and back.
pub mod Laws
use psyexp_net.Prelude.{
  String, ℕ, Bool, true, false, not, ◌||◌, Option, none, some, List, [], ◌∷◌, is_empty, ◌==◌,
  string_eq, if◌then◌else◌,
}
use psyexp_net.Config.{AppConfig}
use psyexp_net.Config.Mapping.{to_dict, from_mapping, network_dict, nat}
use psyexp_net.Errors.{Result, ok}
use psyexp_net.Floats.{Floats}
use psyexp_net.Value.{Value, str, arr, obj, Fields, field, end, put_field, put_fields, items}

-- host in {"0.0.0.0", "::"}
abbrev pub is_wildcard : String → Bool
is_wildcard host = host == "0.0.0.0" || host == "::"

-- the loopback address for a wildcard
abbrev pub loopback : String → String
loopback host = if is_wildcard host then "127.0.0.1" else host

module _ {F : Type 0} where
  -- if host in {...}: overrides[key] = "127.0.0.1"
  abbrev pub override_wildcard : (key host : String) → Fields F → Fields F
  override_wildcard key host overrides =
      if is_wildcard host then put_field key (str "127.0.0.1") overrides else overrides

  abbrev pub no_fields : Fields F → Bool
  no_fields end = true
  no_fields (field k v d) = false

module _ {F : Type 0} ⦃fl : Floats F⦄ where
  -- `_config_with_network_overrides`
  unfoldable pub with_network_overrides : AppConfig F → Fields F → Result (AppConfig F)
  unfolding put_fields put_field
  with_network_overrides config overrides = from_mapping (
      put_field "network" (obj (put_fields overrides (network_dict config.network)))
        (to_dict config))

  -- `_normalize_loopback_network`
  unfoldable pub normalize_loopback_network : AppConfig F → Result (AppConfig F)
  unfolding with_network_overrides
  normalize_loopback_network config =
      let overrides =
        override_wildcard "host" config.network.host
          (override_wildcard "bind_host" config.network.bind_host end) in
      if no_fields overrides then ok config else with_network_overrides config overrides

  -- `normalize_local_network_config`
  unfoldable pub normalize_local_network_config : AppConfig F → Result (AppConfig F)
  unfolding normalize_loopback_network
  normalize_local_network_config config =
      if not (config.network.backend == "zmq") then ok config else normalize_loopback_network config

  -- `apply_backend_override`
  unfoldable pub apply_backend_override : AppConfig F → Option String → Result (AppConfig F)
  unfolding put_field
  apply_backend_override config none = ok config
  apply_backend_override config (some backend) = from_mapping (
      put_field "network" (obj (put_field "backend" (str backend) (network_dict config.network)))
        (to_dict config))

  -- `_make_probe_config`: the target, its port, and the port of a discovery record, if it has one
  unfoldable pub make_probe_config :
      AppConfig F → (target : String) (port : ℕ) → Option ℕ → Result (AppConfig F)
  unfolding put_field
  make_probe_config config target port discovered = from_mapping (
      put_field "network"
        (obj (
          put_field "pub_port"
            (nat (elim discovered [ none ↦ config.network.pub_port | some n ↦ n ]))
            (put_field "control_port" (nat port)
              (put_field "host" (str (loopback target)) (network_dict config.network)))))
        (to_dict config))

-- ===== src/Config/Mapping.antt =====
-- `AppConfig.to_dict` and `AppConfig.from_mapping` of psyexp_net/config.py: a configuration as a nested
-- mapping and back. A field of another type than its class declares is a TypeError here, where Python
-- would keep the value.
pub mod Laws
pub mod Sections
unfoldable pub use psyexp_net.Config.Mapping.Sections.{
  nat, texts, secret_fields, secrets, secrets_of, as_secrets, section, known, network_dict,
  protocol_dict, timing_dict, security_dict, logging_dict, experiment_dict, health_dict, as_float,
  network_of, protocol_of, timing_of, security_of, logging_of, experiment_of, health_of,
}
use psyexp_net.Config.{AppConfig, default_config}
use psyexp_net.Config.Merge.{deep_merge}
use psyexp_net.Errors.{Result, ok, ◌>>=◌}
use psyexp_net.Floats.{Floats}
use psyexp_net.Value.{obj, Fields, field, end}

module _ {F : Type 0} where
  -- `to_dict`
  abbrev pub to_dict : AppConfig F → Fields F
  to_dict c = field "network" (obj (network_dict c.network)) (
      field "protocol" (obj (protocol_dict c.protocol)) (
        field "timing" (obj (timing_dict c.timing)) (
          field "security" (obj (security_dict c.security)) (
            field "logging" (obj (logging_dict c.logging)) (
              field "experiment" (obj (experiment_dict c.experiment))
                (field "health" (obj (health_dict c.health)) end))))))

module _ {F : Type 0} ⦃fl : Floats F⦄ where
  -- The sections of a merged mapping.
  unfoldable pub of_sections : Fields F → Result (AppConfig F)
  unfolding network_of protocol_of timing_of security_of logging_of experiment_of health_of
  of_sections merged = do
    network ← section "network" merged
    network ← network_of network
    protocol ← section "protocol" merged
    protocol ← protocol_of protocol
    timing ← section "timing" merged
    timing ← timing_of timing
    security ← section "security" merged
    security ← security_of security
    logging ← section "logging" merged
    logging ← logging_of logging
    experiment ← section "experiment" merged
    experiment ← experiment_of experiment
    health ← section "health" merged
    health ← health_of health
    ok (record {
      network = network;
      protocol = protocol;
      timing = timing;
      security = security;
      logging = logging;
      experiment = experiment;
      health = health;
    })

  -- `from_mapping`
  unfoldable pub from_mapping : Fields F → Result (AppConfig F)
  unfolding of_sections deep_merge
  from_mapping given = of_sections (deep_merge (to_dict default_config) given)

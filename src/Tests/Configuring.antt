-- ===== src/Tests/Configuring.antt =====
-- The mappings and the changes of a configuration at a concrete one.
use psyexp_net.Prelude.{String, List, ℕ, some, [], ◌∷◌, ◌≡◌, refl, ap, false, string_eq}
use psyexp_net.Prelude.Dict
use psyexp_net.Config.{AppConfig, default_config}
use psyexp_net.Config.Mapping.{to_dict, from_mapping}
use psyexp_net.Config.Mapping.Laws.{from_mapping-to_dict}
use psyexp_net.Config.Merge.{merged}
use psyexp_net.Config.Sources.{Source, Outside, from_file, file_mapping, env_data, from_sources}
use psyexp_net.Config.Sources.Laws.{HasSections, field_of}
use psyexp_net.Config.Sources.Precedence.{HasSections-of, from_sources_lem}
use psyexp_net.Errors.{ok, err, value_error, ◌>>=◌}
use psyexp_net.Value.{str, obj, Fields, field, end}
use psyexp_net.Tests.World.{nat_floats, tallies}

-- Two shared secrets, and every interface to bind to.
abbrev guarded : AppConfig ℕ
guarded = record (default_config {F = ℕ}) {
  network = record (default_config {F = ℕ}).network { backend = "zmq"; bind_host = "0.0.0.0" };
  security = record (default_config {F = ℕ}).security {
    shared_secrets = ("a", "s1") ∷ ("b", "s2") ∷ [];
  };
}

guarded-Distinct : Dict.Distinct guarded.security.shared_secrets
unfolding Dict.get
guarded-Distinct = (refl, (refl, tt))

from_mapping-to_dict_example : from_mapping (to_dict guarded) ≡ ok guarded
from_mapping-to_dict_example = from_mapping-to_dict guarded guarded-Distinct

-- A JSON file that has the configuration `guarded`.
abbrev file : Source ℕ
file = record {
  suffix = ".json";
  toml_loads = err value_error;
  json_loads = ok (obj (to_dict guarded));
  has_yaml = false;
  safe_load = err value_error;
}

abbrev outside : Outside
outside = record { lower = λ s. s; int_text = tallies }

abbrev environ : List (String × String)
environ = ("P_network__host", "10.0.0.1") ∷ ("PATH", "/bin") ∷ []

abbrev overrides : Fields ℕ
overrides = field "network" (obj (field "host" (str "10.0.0.2") end)) end

file-read : file_mapping (some file) ≡ ok (to_dict guarded)
unfolding from_file
file-read = ap (λ r. do c ← r; ok (to_dict c)) (from_mapping-to_dict guarded guarded-Distinct)

overrides-HasSections : HasSections overrides
overrides-HasSections =
    HasSections-of overrides (refl, (field "host" (str "10.0.0.2") end, refl, (refl, tt)), tt)

from_sources_example :
    (m : Fields ℕ) × (from_sources outside (some file) "P_" environ overrides ≡ from_mapping m)
    × (field_of "network" "host" m
        ≡ merged
            (merged
              (field_of "network" "host" (to_dict guarded))
              (field_of "network" "host" (env_data outside "P_" environ end)))
            (field_of "network" "host" overrides))
from_sources_example =
    from_sources_lem outside (some file) "P_" environ overrides (to_dict guarded) "network" "host"
      file-read overrides-HasSections

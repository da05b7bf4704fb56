-- ===== src/Config/Sources.antt =====
-- `AppConfig.from_file` and `AppConfig.from_sources` of psyexp_net/config.py: defaults, a file, the
-- environment and explicit overrides, one over the other. The readers of file formats, str.lower and
-- the reading of numbers are parameters.
pub mod Laws
pub mod Precedence
use Prim.Native.Char.{code}
use psyexp_net.Prelude.{
  String, ℕ, Bool, true, false, ◌&&◌, ◌||◌, Option, none, some, List, [], ◌∷◌, ◌==◌, string_eq,
  nat_beq, if◌then◌else◌,
}
use psyexp_net.Config.{AppConfig, default_config}
use psyexp_net.Config.Mapping.{to_dict, from_mapping}
use psyexp_net.Config.Merge.{deep_merge}
use psyexp_net.Config.Overrides.{no_fields}
use psyexp_net.Errors.{Result, ok, err, value_error, runtime, attribute_error, ◌>>=◌}
use psyexp_net.Floats.{Floats, ℤ}
use psyexp_net.Protocol.Versioning.{IntText}
use psyexp_net.Value.{Value, bool, int, float, str, obj, Fields, field, end, lookup, put_field}
use psyexp_net.Value.Typed.{or_empty}

-- A file by what each reader makes of its text, an exception included, and whether PyYAML is there.
pub record Source (F : Type 0) : Type 0 where
  -- path.suffix.lower()
  pub suffix : String
  pub toml_loads : Result (Value F)
  pub json_loads : Result (Value F)
  pub has_yaml : Bool
  pub safe_load : Result (Value F)

-- name.removeprefix(prefix) of a name that starts with it
unfoldable pub without_prefix : String → String → Option String
without_prefix String.[] s = some s
without_prefix (String.◌∷◌ c p) String.[] = none
without_prefix (String.◌∷◌ c p) (String.◌∷◌ d s) =
    let rest = without_prefix p s in if nat_beq (code c) (code d) then rest else none

abbrev pub push : String → List String → List String
push c [] = []
push c (part ∷ parts) = Prim.Native.String.◌++◌ c part ∷ parts

-- s.split("__"); `after_one` says that the text stands behind an underscore that is still open
unfoldable pub split_from : (after_one : Bool) → String → List String
split_from false String.[] = "" ∷ []
split_from true String.[] = "_" ∷ []
split_from after_one (String.◌∷◌ c s) =
    let opened = split_from true s in
    let plain = split_from false s in
    if nat_beq (code c) b'_'
    then (if after_one then "" ∷ plain else opened)
    else (if after_one
        then push "_" (push (String.◌∷◌ c "") plain)
        else push (String.◌∷◌ c "") plain)

abbrev pub split : String → List String
split = split_from false

-- What from_sources reads from outside.
pub record Outside : Type 0 where
  pub lower : String → String
  pub int_text : IntText

module _ {F : Type 0} ⦃fl : Floats F⦄ where
  open fl use {parse_float}

  abbrev pub as_mapping : Value F → Result (Fields F)
  as_mapping (obj d) = ok d
  as_mapping _ = err attribute_error

  abbrev pub read_source : Source F → Result (Fields F)
  read_source s =
      if s.suffix == ".toml" || s.suffix == ".tml"
      then (do v ← s.toml_loads; as_mapping v)
      else if s.suffix == ".json"
      then (do v ← s.json_loads; as_mapping v)
      else if s.suffix == ".yaml" || s.suffix == ".yml"
      then (if s.has_yaml then (do v ← s.safe_load; or_empty v) else err runtime)
      else err value_error

  unfoldable pub from_file : Source F → Result (AppConfig F)
  unfolding from_mapping
  from_file s = do d ← read_source s; from_mapping d

  abbrev pub number_or_text : Option ℤ → Option F → String → Value F
  number_or_text (some n) x raw = int n
  number_or_text none (some x) raw = float x
  number_or_text none none raw = str raw

  -- `_coerce_env_value`
  unfoldable pub coerce_env_value : Outside → String → Value F
  coerce_env_value o raw =
      if o.lower raw == "true"
      then bool true
      else if o.lower raw == "false"
      then bool false
      else number_or_text (o.int_text.parse_int raw) (parse_float raw) raw

  abbrev pub section_or_new : Option (Value F) → Fields F
  section_or_new (some (obj d)) = d
  section_or_new _ = end

  -- env_data.setdefault(section, {})[field_name] = value
  abbrev pub put_in : String → String → Value F → Fields F → Fields F
  put_in section name v d =
      put_field section (obj (put_field name v (section_or_new (lookup section d)))) d

  abbrev pub add_parts : List String → Value F → Fields F → Fields F
  add_parts (section ∷ name ∷ []) v d = put_in section name v d
  add_parts _ v d = d

  -- what a variable adds, by its name without the prefix
  abbrev pub add_named : Outside → Option String → (raw : String) → Fields F → Fields F
  add_named o none raw d = d
  add_named o (some rest) raw d = add_parts (split (o.lower rest)) (coerce_env_value o raw) d

  -- env_data
  unfoldable pub env_data :
      Outside → (prefix : String) → List (String × String) → Fields F → Fields F
  unfolding put_field without_prefix split_from coerce_env_value
  env_data o prefix [] d = d
  env_data o prefix (e ∷ es) d =
      env_data o prefix es (add_named o (without_prefix prefix e.0) e.1 d)

  -- a merge that is left out when there is nothing to merge
  abbrev pub merge_some : Fields F → Fields F → Fields F
  merge_some base over = if no_fields over then base else deep_merge base over

  abbrev pub file_mapping : Option (Source F) → Result (Fields F)
  file_mapping none = ok end
  file_mapping (some s) = do c ← from_file s; ok (to_dict c)

  -- `from_sources`
  unfoldable pub from_sources :
      Outside
      → Option (Source F)
      → (env_prefix : String) → List (String × String)
      → (overrides : Fields F) → Result (AppConfig F)
  unfolding from_file env_data deep_merge from_mapping
  from_sources o path env_prefix environ overrides = do
    file ← file_mapping path
    from_mapping (merge_some (merge_some file (env_data o env_prefix environ end)) overrides)

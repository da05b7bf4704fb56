-- ===== src/Config/Mapping/Laws.antt =====
-- A configuration of psyexp_net/config.py reads back from its mapping.
use psyexp_net.Prelude.{String, none, List, [], ◌∷◌, ◌≡◌, refl, ap, arith, string_eq, eq_iff, map}
use psyexp_net.Prelude.Dict
use psyexp_net.Prelude.Dict.{Dict}
use psyexp_net.Config.{AppConfig, default_config}
use psyexp_net.Config.Mapping.{
  to_dict, from_mapping, of_sections, secret_fields, secrets_of, network_of, protocol_of, timing_of,
  security_of, logging_of, experiment_of, health_of,
}
use psyexp_net.Config.Merge.{deep_merge, HasDistinctKeys, lookup-put_field}
use psyexp_net.Errors.{ok}
use psyexp_net.Floats.{Floats}
use psyexp_net.Value.{Value, str, items, Fields, field, end, lookup, put_field}
use psyexp_net.Value.Typed.{str_items}

module _ (F : Type 0) where
  secrets_of-secret_fields : (d : Dict String String) → secrets_of (secret_fields {F = F} d) ≡ ok d
  secrets_of-secret_fields [] = refl
  secrets_of-secret_fields ((k, s) ∷ d) = rw (secrets_of-secret_fields d)

  str_items-map : (ts : List String) → str_items {F = F} (items (map str ts)) ≡ ok ts
  str_items-map [] = refl
  str_items-map (t ∷ ts) = rw (str_items-map ts)

  lookup-secret_fields :
      (j : String) (d : Dict String String)
      → Dict.get j d ≡ none
      → lookup j (secret_fields {F = F} d) ≡ none
  unfolding Dict.get
  lookup-secret_fields j [] h = refl
  lookup-secret_fields j ((i, s) ∷ d) h = ground (arith, lookup-secret_fields j d)

  HasDistinctKeys-secret_fields :
      (d : Dict String String) → Dict.Distinct d → HasDistinctKeys (secret_fields {F = F} d)
  HasDistinctKeys-secret_fields [] h = tt
  HasDistinctKeys-secret_fields ((k, s) ∷ d) h =
      (lookup-secret_fields k d h.0, HasDistinctKeys-secret_fields d h.1)

module _ {F : Type 0} where
  -- One mapping behind another.
  abbrev joined : Fields F → Fields F → Fields F
  joined end d = d
  joined (field k v c) d = field k v (joined c d)

  -- No key of the second mapping is in the first.
  abbrev IsFresh : Fields F → Fields F → Type 0
  IsFresh base end = Unit
  IsFresh base (field k v d) = (lookup k base ≡ none) × IsFresh base d

  IsFresh-end : (over : Fields F) → IsFresh end over
  IsFresh-end end = tt
  IsFresh-end (field k v over) = (refl, IsFresh-end over)

  joined-put_field :
      (k : String) (v : Value F) (base over : Fields F)
      → lookup k base ≡ none
      → joined (put_field k v base) over ≡ joined base (field k v over)
  unfolding put_field
  joined-put_field k v end over h = refl
  joined-put_field k v (field j w base) over h = ground (arith, joined-put_field k v base over)

  IsFresh-put_field :
      (k : String) (v : Value F) (base over : Fields F)
      → lookup k over ≡ none
      → IsFresh base over
      → IsFresh (put_field k v base) over
  IsFresh-put_field k v base end h f = tt
  IsFresh-put_field k v base (field j w over) h f = (
    ground (arith, lookup-put_field k j v base, eq_iff j k, eq_iff k j),
    IsFresh-put_field k v base over (ground arith) f.1,
  )

  -- To merge a mapping of new keys is to put it behind the base.
  deep_merge-fresh :
      (base over : Fields F)
      → HasDistinctKeys over
      → IsFresh base over
      → deep_merge base over ≡ joined base over
  unfolding deep_merge
  deep_merge-fresh base end d f = joined-end base
    where
      joined-end : (b : Fields F) → b ≡ joined b end
      joined-end end = refl
      joined-end (field k v b) = ap (field k v) (joined-end b)
  deep_merge-fresh base (field k v over) d f =
      rw
        (
          f.0,
          deep_merge-fresh (put_field k v base) over d.1 (IsFresh-put_field k v base over d.0 f.1),
        )
        (joined-put_field k v base over f.0)

module _ {F : Type 0} ⦃fl : Floats F⦄ where
  of_sections-to_dict : (c : AppConfig F) → of_sections (to_dict c) ≡ ok c
  unfolding of_sections network_of protocol_of timing_of security_of logging_of experiment_of
      health_of
  of_sections-to_dict c = rw (
    secrets_of-secret_fields F c.security.shared_secrets,
    str_items-map F c.experiment.required_roles,
  )

  merged-to_dict :
      (c : AppConfig F)
      → Dict.Distinct c.security.shared_secrets
      → deep_merge (to_dict default_config) (to_dict c) ≡ to_dict c
  unfolding deep_merge put_field
  merged-to_dict c d = rw (
      deep_merge-fresh end (secret_fields c.security.shared_secrets)
        (HasDistinctKeys-secret_fields F c.security.shared_secrets d)
        (IsFresh-end (secret_fields c.security.shared_secrets)))

  -- A configuration reads back from its mapping, if no client stands twice among its secrets: each
  -- section, through the merge with the defaults.
  pub from_mapping-to_dict :
      (c : AppConfig F) → Dict.Distinct c.security.shared_secrets → from_mapping (to_dict c) ≡ ok c
  unfolding from_mapping
  from_mapping-to_dict c d = rw (merged-to_dict c d, of_sections-to_dict c)

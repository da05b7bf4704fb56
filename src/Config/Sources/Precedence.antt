-- ===== src/Config/Sources/Precedence.antt =====
-- The precedence of the sources of a configuration: psyexp_net/config.py.
use psyexp_net.Prelude.{
  String, Option, none, some, List, [], ◌∷◌, ◌≡◌, refl, subst, ap, ◌∙◌, inl, inr, Bool-cases, ◌==◌,
  string_eq,
}
use psyexp_net.Config.{AppConfig}
use psyexp_net.Config.Mapping.{
  to_dict, from_mapping, network_dict, protocol_dict, timing_dict, security_dict, logging_dict,
  experiment_dict, health_dict,
}
use psyexp_net.Config.Sources.{
  Outside, Source, put_in, section_or_new, add_parts, add_named, env_data, merge_some, file_mapping,
  from_file, from_sources, without_prefix, split, coerce_env_value,
}
use psyexp_net.Errors.{Result, ok, err, Result-cases}
use psyexp_net.Floats.{Floats}
use psyexp_net.Config.Sources.Laws.{
  IsSection, HasSections, field_of, HasDistinctKeys-put_field, field_of-deep_merge,
  HasSections-deep_merge,
}
use psyexp_net.Config.Merge.{merged, HasDistinctKeys, lookup-put_field}
use psyexp_net.Value.{Value, obj, Fields, field, end, lookup, put_field}

abbrev value_or : {A : Type 0} → A → Result A → A
value_or a (ok b) = b
value_or a (err e) = a

module _ {F : Type 0} ⦃fl : Floats F⦄ where
  HasSections-end : HasSections {F = F} end
  HasSections-end = (tt, λ s. inl refl)

  section_or_new-Distinct :
      (o : Option (Value F)) → IsSection o → HasDistinctKeys (section_or_new o)
  section_or_new-Distinct o (inl h) = rw h tt
  section_or_new-Distinct o (inr (d, h, dis)) = rw h dis

  HasSections-put_in :
      (section name : String) (v : Value F) (d : Fields F)
      → HasSections d
      → HasSections (put_in section name v d)
  HasSections-put_in section name v d h = (
    HasDistinctKeys-put_field section _ d h.0,
    λ s. rw (lookup-put_field section s _ d) (elim (Bool-cases (section == s)) [
      | inl e ↦ rw e (
          inr (
            put_field name v (section_or_new (lookup section d)),
            refl,
            HasDistinctKeys-put_field name v _
                (section_or_new-Distinct (lookup section d) (h.1 section)),
          ))
      | inr e ↦ rw e (h.1 s)
    ]),
  )

  HasSections-add_parts :
      (parts : List String) (v : Value F) (d : Fields F)
      → HasSections d
      → HasSections (add_parts parts v d)
  HasSections-add_parts [] v d h = h
  HasSections-add_parts (a ∷ []) v d h = h
  HasSections-add_parts (a ∷ b ∷ []) v d h = HasSections-put_in a b v d h
  HasSections-add_parts (a ∷ b ∷ c ∷ rest) v d h = h

  HasSections-add_named :
      (o : Outside) (name : Option String) (raw : String) (d : Fields F)
      → HasSections d
      → HasSections (add_named o name raw d)
  HasSections-add_named o none raw d h = h
  HasSections-add_named o (some rest) raw d h =
      HasSections-add_parts (split (o.lower rest)) (coerce_env_value o raw) d h

  HasSections-env_data :
      (o : Outside) (prefix : String) (es : List (String × String)) (d : Fields F)
      → HasSections d
      → HasSections (env_data o prefix es d)
  unfolding env_data
  HasSections-env_data o prefix [] d h = h
  HasSections-env_data o prefix (e ∷ es) d h =
      HasSections-env_data o prefix es (add_named o (without_prefix prefix e.0) e.1 d)
        (HasSections-add_named o (without_prefix prefix e.0) e.1 d h)

  -- Each value a section, by recursion.
  abbrev pub AreSections : Fields F → Type 0
  AreSections end = Unit
  AreSections (field k v d) =
      (lookup k d ≡ none) × ((e : Fields F) × (v ≡ obj e) × HasDistinctKeys e) × AreSections d

  pub HasSections-of : (d : Fields F) → AreSections d → HasSections d
  HasSections-of end h = HasSections-end
  HasSections-of (field k v d) h =
      let rest = HasSections-of d h.2 in
      (
        (h.0, rest.0),
        λ s. elim (Bool-cases (k == s)) [
          | inl e ↦ rw e (inr (h.1.0, ap some h.1.1, h.1.2))
          | inr e ↦ rw e (rest.1 s)
        ],
      )

  AreSections-to_dict : (c : AppConfig F) → AreSections (to_dict c)
  AreSections-to_dict c = (
    refl,
    (
      network_dict c.network,
      refl,
      (
        refl,
        (
          refl,
          (
            refl,
            (
              refl,
              (
                refl,
                (
                  refl,
                  (
                    refl,
                    (refl, (refl, (refl, (refl, (refl, (refl, (refl, (refl, (refl, tt))))))))),
                  ),
                ),
              ),
            ),
          ),
        ),
      ),
    ),
    (
      refl,
      (protocol_dict c.protocol, refl, (refl, (refl, (refl, (refl, (refl, tt)))))),
      (
        refl,
        (timing_dict c.timing, refl, (refl, (refl, (refl, (refl, (refl, (refl, tt))))))),
        (
          refl,
          (security_dict c.security, refl, (refl, (refl, (refl, tt)))),
          (
            refl,
            (logging_dict c.logging, refl, (refl, (refl, (refl, (refl, tt))))),
            (
              refl,
              (experiment_dict c.experiment, refl, (refl, (refl, (refl, tt)))),
              (refl, (health_dict c.health, refl, (refl, (refl, tt))), tt),
            ),
          ),
        ),
      ),
    ),
  )

  field_of-merge_some :
      (s k : String) (base over : Fields F)
      → HasSections base
      → HasSections over
      → (field_of s k (merge_some base over) ≡ merged (field_of s k base) (field_of s k over))
        × HasSections (merge_some base over)
  field_of-merge_some s k base end hb ho = (refl, hb)
  field_of-merge_some s k base (field j v over) hb ho = (
    field_of-deep_merge s k base (field j v over) hb ho,
    HasSections-deep_merge base (field j v over) hb ho,
  )

  HasSections-file_mapping :
      (path : Option (Source F)) (f : Fields F) → file_mapping path ≡ ok f → HasSections f
  HasSections-file_mapping none f h = subst HasSections (ap (value_or end) h) HasSections-end
  HasSections-file_mapping (some s) f h = elim (Result-cases (from_file s)) [
    | inl (c, e) ↦
        subst HasSections (ap (value_or end) (rw e at h))
          (HasSections-of (to_dict c) (AreSections-to_dict c))
    | inr (x, e) ↦ cc (rw e at h)
  ]

  -- The configuration is made of one mapping over the defaults, if the file can be read. In it each
  -- field of a section has the value of the overrides if they have it, or else that of the
  -- environment, or else that of the file; two mappings are merged. The overrides have to be
  -- sections, mappings in which no key stands twice.
  pub from_sources_lem :
      (o : Outside) (path : Option (Source F)) (prefix : String) (environ : List (String × String))
      (overrides f : Fields F) (s k : String)
      → file_mapping path ≡ ok f
      → HasSections overrides
      → (m : Fields F) × (from_sources o path prefix environ overrides ≡ from_mapping m)
        × (field_of s k m
            ≡ merged
                (merged (field_of s k f) (field_of s k (env_data o prefix environ end)))
                (field_of s k overrides))
  unfolding from_sources
  from_sources_lem o path prefix environ overrides f s k read h =
      let env = HasSections-env_data o prefix environ end HasSections-end in
      let (first, both) =
        field_of-merge_some s k f (env_data o prefix environ end)
          (HasSections-file_mapping path f read) env in
      (
        merge_some (merge_some f (env_data o prefix environ end)) overrides,
        rw read refl,
        (field_of-merge_some s k (merge_some f (env_data o prefix environ end)) overrides both h).0
            ∙ ap (λ x. merged x (field_of s k overrides)) first,
      )

-- ===== src/Config/Merge.antt =====
-- `_deep_merge` of psyexp_net/config.py: a nested mapping over another.
use psyexp_net.Prelude.{
  String, Option, none, some, ◌≡◌, refl, arith, ◌==◌, string_eq, eq_iff, beq_self, inl, inr,
  Bool-cases, if◌then◌else◌,
}
use psyexp_net.Value.{Value, obj, Fields, field, end, lookup, put_field}

module _ {F : Type 0} where
  unfoldable mutual
    -- merged[key] = ... of one round of the loop
    pub merge_value : Option (Value F) → Value F → Value F
    merge_value (some (obj base)) (obj over) = obj (deep_merge base over)
    merge_value _ v = v

    pub deep_merge : Fields F → Fields F → Fields F
    deep_merge base end = base
    deep_merge base (field k v over) =
        deep_merge (put_field k (merge_value (lookup k base) v) base) over

  pub lookup-put_field :
      (k j : String) (v : Value F) (d : Fields F)
      → lookup j (put_field k v d) ≡ (if k == j then some v else lookup j d)
  unfolding put_field
  lookup-put_field k j v end = refl
  lookup-put_field k j v (field i w d) =
      ground (arith, eq_iff k j, eq_iff i k, eq_iff i j, lookup-put_field k j v d)

  -- No key of the mapping stands twice.
  abbrev pub HasDistinctKeys : Fields F → Type 0
  HasDistinctKeys end = Unit
  HasDistinctKeys (field k v d) = (lookup k d ≡ none) × HasDistinctKeys d

  -- What a key has after the merge, by what it has in the two mappings.
  abbrev pub merged : Option (Value F) → Option (Value F) → Option (Value F)
  merged base none = base
  merged base (some v) = some (merge_value base v)

  -- Each key of a merge has its value of the base where the override does not have the key, the
  -- override's value where it does and one of the two is no mapping, and the merge of the two
  -- mappings otherwise, if no key stands twice in the override.
  pub lookup-deep_merge :
      (k : String) (base over : Fields F)
      → HasDistinctKeys over
      → lookup k (deep_merge base over) ≡ merged (lookup k base) (lookup k over)
  unfolding deep_merge
  lookup-deep_merge k base end d = refl
  lookup-deep_merge k base (field j v over) d =
      rw
        (
          lookup-deep_merge k (put_field j (merge_value (lookup j base) v) base) over d.1,
          lookup-put_field j k (merge_value (lookup j base) v) base,
        )
        (elim (Bool-cases (j == k)) [
          | inl same ↦ rw (← (eq_iff j k).0 same) (rw (beq_self j, d.0))
          | inr other ↦ rw other
        ])

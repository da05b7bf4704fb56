-- ===== src/Config/Sources/Laws.antt =====
-- The sections of a merge of nested mappings, for psyexp_net/config.py.
use psyexp_net.Prelude.{
  String, Option, none, some, ◌≡◌, refl, sym, arith, inl, inr, Bool-cases, ◌⊎◌, ◌==◌, string_eq,
  eq_iff,
}
use psyexp_net.Config.Merge.{
  deep_merge, merge_value, merged, HasDistinctKeys, lookup-deep_merge, lookup-put_field,
}
use psyexp_net.Value.{Value, obj, Fields, field, end, lookup, put_field}

module _ {F : Type 0} where
  pub HasDistinctKeys-put_field :
      (k : String) (v : Value F) (d : Fields F)
      → HasDistinctKeys d
      → HasDistinctKeys (put_field k v d)
  unfolding put_field
  HasDistinctKeys-put_field k v end h = (refl, tt)
  HasDistinctKeys-put_field k v (field j w d) h = elim (Bool-cases (j == k)) [
    | inl same ↦ rw same h
    | inr other ↦ rw other (
      ground (arith, lookup-put_field k j v d, eq_iff k j, eq_iff j k, h.0),
      HasDistinctKeys-put_field k v d h.1,
    )
  ]

  HasDistinctKeys-deep_merge :
      (base over : Fields F) → HasDistinctKeys base → HasDistinctKeys (deep_merge base over)
  unfolding deep_merge
  HasDistinctKeys-deep_merge base end h = h
  HasDistinctKeys-deep_merge base (field k v over) h =
      HasDistinctKeys-deep_merge (put_field k (merge_value (lookup k base) v) base) over
        (HasDistinctKeys-put_field k (merge_value (lookup k base) v) base h)

  -- A section is a mapping in which no key stands twice, if it is there.
  abbrev pub IsSection : Option (Value F) → Type 0
  IsSection o = (o ≡ none) ⊎ ((d : Fields F) × (o ≡ some (obj d)) × HasDistinctKeys d)

  -- No key stands twice, and every value is such a section.
  abbrev pub HasSections : Fields F → Type 0
  HasSections d = HasDistinctKeys d × ((s : String) → IsSection (lookup s d))

  abbrev pub in_section : Option (Value F) → String → Option (Value F)
  in_section (some (obj d)) k = lookup k d
  in_section _ k = none

  -- d[section][field], if it is there
  abbrev pub field_of : String → String → Fields F → Option (Value F)
  field_of s k d = in_section (lookup s d) k

  merged-none : (o : Option (Value F)) → merged none o ≡ o
  unfolding deep_merge
  merged-none none = refl
  merged-none (some v) = refl

  in_section-merged :
      (k : String) (b o : Option (Value F))
      → IsSection b
      → IsSection o
      → (in_section (merged b o) k ≡ merged (in_section b k) (in_section o k))
        × IsSection (merged b o)
  unfolding deep_merge
  in_section-merged k b o hb (inl h) = rw h (refl, hb)
  in_section-merged k b o (inl g) (inr (d, h, dis)) =
      rw (h, g) (sym (merged-none (lookup k d)), inr (d, refl, dis))
  in_section-merged k b o (inr (e, g, dis')) (inr (d, h, dis)) =
      rw (h, g)
        (
          lookup-deep_merge k e d dis,
          inr (deep_merge e d, refl, HasDistinctKeys-deep_merge e d dis'),
        )

  pub field_of-deep_merge :
      (s k : String) (base over : Fields F)
      → HasSections base
      → HasSections over
      → field_of s k (deep_merge base over) ≡ merged (field_of s k base) (field_of s k over)
  field_of-deep_merge s k base over hb ho =
      rw (lookup-deep_merge s base over ho.0)
        (in_section-merged k (lookup s base) (lookup s over) (hb.1 s) (ho.1 s)).0

  pub HasSections-deep_merge :
      (base over : Fields F)
      → HasSections base
      → HasSections over
      → HasSections (deep_merge base over)
  HasSections-deep_merge base over hb ho = (
    HasDistinctKeys-deep_merge base over hb.0,
    λ s.
        rw (lookup-deep_merge s base over ho.0)
          (in_section-merged "" (lookup s base) (lookup s over) (hb.1 s) (ho.1 s)).1,
  )

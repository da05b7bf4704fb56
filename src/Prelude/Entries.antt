-- ===== src/Prelude/Entries.antt =====
-- What a search through the values of a dictionary finds, as its keys see it.
use mathlib.Core.Path.{◌≡◌}
use mathlib.Core.Logic.{inl, inr}
use mathlib.Core.Bool.{Bool, true, false}
use mathlib.Core.Option.{some}
use mathlib.Core.List.{[], ◌∷◌}
use native.Mathlib.Omega.{arith}
use psyexp_net.Prelude.Tests.{Eq, beq_self, Bool-cases}
use psyexp_net.Prelude.Lists.{keep, is_empty}
use psyexp_net.Prelude.Dict
use psyexp_net.Prelude.Dict.{Dict}

module _ {ℓ} {K V : Type ℓ} ⦃e : Eq K⦄ where
  -- An entry whose value passes the test.
  abbrev pub HasEntry : (V → Bool) → Dict K V → Type ℓ
  HasEntry p d = (k : K) × (v : V) × (Dict.get k d ≡ some v) × (p v ≡ true)

  pub HasEntry-of-keep :
      (p : V → Bool) (d : Dict K V)
      → Dict.Distinct d
      → is_empty (keep p (Dict.values d)) ≡ false
      → HasEntry p d
  unfolding Dict.get
  HasEntry-of-keep p [] h found = cc
  HasEntry-of-keep p ((k, v) ∷ d) h found = elim (Bool-cases (p v)) [
    | inl t ↦ (k, v, rw (beq_self k), t)
    | inr f ↦
        let (j, w, at, t) = HasEntry-of-keep p d h.1 (rw f at found) in
        (j, w, ground (arith, h.0, at, e.beq_iff k j), t)
  ]

  pub keep_of_HasEntry :
      (p : V → Bool) (d : Dict K V) → HasEntry p d → is_empty (keep p (Dict.values d)) ≡ false
  unfolding Dict.get
  keep_of_HasEntry p [] (k, v, at, t) = cc
  keep_of_HasEntry p ((j, w) ∷ d) (k, v, at, t) = elim (Bool-cases (p w)) [
    | inl here ↦ rw here
    | inr not_here ↦ rw not_here (keep_of_HasEntry p d (k, v, ground arith, t))
  ]

-- ===== src/Prelude/Dict.antt =====
-- Python's `dict`, which keeps the order of insertion: an assignment to a key that is there keeps
-- its place, a new key comes last.
use psyexp_net.Prelude.Tests.{Eq, ◌==◌, if◌then◌else◌, beq_self, Bool-cases}
use psyexp_net.Prelude.Lists.{All, keep}
use mathlib.Core.Path.{◌≡◌, refl, ap}
use mathlib.Core.Logic.{◌≢◌, inl, inr}
use mathlib.Core.Bool.{Bool, true, false, not}
use mathlib.Core.Option.{Option, none, some}
use mathlib.Core.List.{List, [], ◌∷◌, map}
use native.Mathlib.Omega.{arith}

abbrev pub Dict {ℓ κ} : Type ℓ → Type κ → Type (ℓ ⊔ κ)
Dict K V = List (K × V)

module _ {ℓ κ} {K : Type ℓ} {V : Type κ} where
  -- list(d), list(d.values())
  abbrev pub keys : Dict K V → List K
  keys = map (λ e. e.0)

  abbrev pub values : Dict K V → List V
  values = map (λ e. e.1)

module _ {ℓ κ} {K : Type ℓ} {V : Type κ} ⦃e : Eq K⦄ where
  -- d.get(k)
  unfoldable pub get : K → Dict K V → Option V
  get k [] = none
  get k ((j, v) ∷ d) = if j == k then some v else get k d

  -- d[k] = v
  unfoldable pub put : K → V → Dict K V → Dict K V
  put k v [] = (k, v) ∷ []
  put k v ((j, w) ∷ d) = if j == k then (j, v) ∷ d else (j, w) ∷ put k v d

  -- d.pop(k, None), beside the value that `get` has
  unfoldable pub remove : K → Dict K V → Dict K V
  remove k [] = []
  remove k ((j, v) ∷ d) = let rest = remove k d in if j == k then rest else (j, v) ∷ rest

  pub get-put :
      (k j : K) (v : V) (d : Dict K V) → get j (put k v d) ≡ (if k == j then some v else get j d)
  unfolding get put
  get-put k j v [] = refl
  get-put k j v ((i, w) ∷ d) =
      ground (arith, e.beq_iff k j, e.beq_iff i k, e.beq_iff i j, get-put k j v d)

  pub get-put_self : (k : K) (v : V) (d : Dict K V) → get k (put k v d) ≡ some v
  get-put_self k v d = simp (get-put, beq_self)

  pub get-remove :
      (k j : K) (d : Dict K V) → get j (remove k d) ≡ (if k == j then none else get j d)
  unfolding get remove
  get-remove k j [] = ground arith
  get-remove k j ((i, w) ∷ d) =
      ground (arith, e.beq_iff k j, e.beq_iff i k, e.beq_iff i j, get-remove k j d)

  pub get-remove_self : (k : K) (d : Dict K V) → get k (remove k d) ≡ none
  get-remove_self k d = simp (get-remove, beq_self)

  pub remove_absent : (k : K) (d : Dict K V) → get k d ≡ none → remove k d ≡ d
  unfolding get remove
  remove_absent k [] h = refl
  remove_absent k ((j, v) ∷ d) h = ground (arith, remove_absent k d)

  pub remove-put : (k : K) (v : V) (d : Dict K V) → get k d ≡ none → remove k (put k v d) ≡ d
  unfolding get put remove
  remove-put k v [] h = rw beq_self
  remove-put k v ((j, w) ∷ d) h = ground (arith, remove-put k v d)

  -- No key stands twice.
  abbrev pub Distinct : Dict K V → Type κ
  Distinct [] = Unit
  Distinct ((k, v) ∷ d) = (get k d ≡ none) × Distinct d

  pub Distinct-put : (k : K) (v : V) (d : Dict K V) → Distinct d → Distinct (put k v d)
  unfolding get put
  Distinct-put k v [] h = (refl, tt)
  Distinct-put k v ((j, w) ∷ d) h = elim (Bool-cases (j == k)) [
    | inl same ↦ rw same h
    | inr other ↦
        rw other
          (ground (arith, get-put k j v d, e.beq_iff j k, e.beq_iff k j), Distinct-put k v d h.1)
  ]

  pub Distinct-remove : (k : K) (d : Dict K V) → Distinct d → Distinct (remove k d)
  unfolding get remove
  Distinct-remove k [] h = tt
  Distinct-remove k ((j, w) ∷ d) h = elim (Bool-cases (j == k)) [
    | inl same ↦ rw same (Distinct-remove k d h.1)
    | inr other ↦ rw other (ground (arith, get-remove k j d), Distinct-remove k d h.1)
  ]

  pub put-ne-nil : (k : K) (v : V) (d : Dict K V) → put k v d ≢ []
  unfolding put
  put-ne-nil k v [] h = cc
  put-ne-nil k v ((j, w) ∷ d) h = ground arith

  -- A predicate on the entries.
  pub All-put {μ} :
      (P : K × V → Type μ) (k : K) (v : V) (d : Dict K V)
      → ((j : K) → (j == k) ≡ true → P (j, v))
      → All P d
      → All P (put k v d)
  unfolding put
  All-put P k v [] new h = (new k (beq_self k), tt)
  All-put P k v ((j, w) ∷ d) new h = elim (Bool-cases (j == k)) [
    | inl same ↦ rw same (new j same, h.1)
    | inr other ↦ rw other (h.0, All-put P k v d new h.1)
  ]

  pub All-remove {μ} : (P : K × V → Type μ) (k : K) (d : Dict K V) → All P d → All P (remove k d)
  unfolding remove
  All-remove P k [] h = tt
  All-remove P k ((j, w) ∷ d) h = elim (Bool-cases (j == k)) [
    | inl same ↦ rw same (All-remove P k d h.1)
    | inr other ↦ rw other (h.0, All-remove P k d h.1)
  ]

  pub All-get {μ} :
      (P : K × V → Type μ) (k : K) (d : Dict K V) {v : V} → All P d → get k d ≡ some v → P (k, v)
  unfolding get
  All-get P k [] h found = cc
  All-get P k ((j, w) ∷ d) {v} h found = elim (Bool-cases (j == k)) [
    | inl same ↦ rw (← (e.beq_iff j k).0 same) (let eq : w ≡ v = ground arith in rw (← eq) h.0)
    | inr other ↦ All-get P k d h.1 (ground arith)
  ]

pub ruleset dict_laws = (get-put, get-remove)

module _ {ℓ κ} {K : Type ℓ} {V : Type κ} ⦃e : Eq K⦄ where
  -- for k in ks: d.pop(k, None)
  unfoldable pub remove_all : List K → Dict K V → Dict K V
  remove_all [] d = d
  remove_all (k ∷ ks) d = remove_all ks (remove k d)

  remove_all-cons :
      (k : K) (v : V) (ks : List K) (d : Dict K V)
      → All (λ j. (k == j) ≡ false) ks
      → remove_all ks ((k, v) ∷ d) ≡ (k, v) ∷ remove_all ks d
  unfolding remove_all remove
  remove_all-cons k v [] d h = refl
  remove_all-cons k v (j ∷ ks) d h = rw h.0 (remove_all-cons k v ks (remove j d) h.1)

  keys-keep_absent :
      (k : K) (p : K × V → Bool) (d : Dict K V)
      → get k d ≡ none
      → All (λ j. (k == j) ≡ false) (keys (keep p d))
  unfolding get
  keys-keep_absent k p [] h = tt
  keys-keep_absent k p ((j, v) ∷ d) h =
      let tail = keys-keep_absent k p d (ground arith) in
      elim (Bool-cases (p (j, v))) [
        | inl t ↦ rw t (ground (arith, e.beq_iff j k, e.beq_iff k j), tail)
        | inr f ↦ rw f tail
      ]

  remove_all-head :
      (k : K) (v : V) (ks : List K) (d : Dict K V)
      → get k d ≡ none
      → remove_all (k ∷ ks) ((k, v) ∷ d) ≡ remove_all ks d
  unfolding remove_all remove
  remove_all-head k v ks d h = rw (beq_self k, remove_absent k d h)

  -- To remove the keys of the entries that pass a test is to keep the others.
  pub remove_all-keep :
      (p : K × V → Bool) (d : Dict K V)
      → Distinct d
      → remove_all (keys (keep p d)) d ≡ keep (λ x. not (p x)) d
  unfolding remove_all remove get
  remove_all-keep p [] h = refl
  remove_all-keep p ((k, v) ∷ d) h = elim (Bool-cases (p (k, v))) [
    | inl t ↦ rw t (rw (remove_all-head k v _ d h.0) (remove_all-keep p d h.1))
    | inr f ↦
        rw (f, remove_all-cons k v (keys (keep p d)) d (keys-keep_absent k p d h.0))
          (ap (◌∷◌ (k, v)) (remove_all-keep p d h.1))
  ]

  get-keep_absent :
      (k : K) (p : K × V → Bool) (d : Dict K V) → get k d ≡ none → get k (keep p d) ≡ none
  unfolding get
  get-keep_absent k p [] h = refl
  get-keep_absent k p ((j, v) ∷ d) h = ground (arith, get-keep_absent k p d)

  pub Distinct-keep : (p : K × V → Bool) (d : Dict K V) → Distinct d → Distinct (keep p d)
  Distinct-keep p [] h = tt
  Distinct-keep p ((k, v) ∷ d) h = elim (Bool-cases (p (k, v))) [
    | inl t ↦ rw t (get-keep_absent k p d h.0, Distinct-keep p d h.1)
    | inr f ↦ rw f (Distinct-keep p d h.1)
  ]

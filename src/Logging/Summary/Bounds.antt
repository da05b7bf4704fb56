-- ===== src/Logging/Summary/Bounds.antt =====
-- The percentile of MetricsCollector, psyexp_net/logging/metrics.py, is the sample of its rank.
use mathlib.Core.List.{Mem, mem-cons_self, mem-cons_of_mem}
use mathlib.Core.List.Perm
use psyexp_net.Prelude.{
  ℕ, zero, suc, ◌+◌, ◌-◌, ◌<◌, ◌≤◌, min, Bool, false, List, [], ◌∷◌, length, keep, All, ◌≡◌, arith,
  inl, inr, Bool-cases, refl, ap, sym, subst,
}
use psyexp_net.Prelude.Sorting.{
  sort_by, sort_by-perm, sort_by-IsSorted, length-sort_by, length-keep-sort_by, IsStrict, IsSorted,
  lt_self,
}
use psyexp_net.Floats.{ℤ, pos, negsuc, Floats, of_ℕ}
use psyexp_net.Protocol.Versioning.{min_ℤ}
use psyexp_net.Logging.Summary.{Statistics, sorted, element_at, element, max_ℤ, percentile}

-- The rank in 0 .. last that is nearest to an integer.
abbrev pub nearest : (last : ℕ) → ℤ → ℕ
nearest last (pos n) = min last n
nearest last (negsuc n) = 0

nearest-le : (last : ℕ) (q : ℤ) → nearest last q ≤ last
nearest-le last (pos n) = omega arith
nearest-le last (negsuc n) = omega arith

clamped : (last : ℕ) (q : ℤ) → max_ℤ (pos 0) (min_ℤ (pos last) q) ≡ pos (nearest last q)
clamped last (pos n) = ground arith
clamped last (negsuc n) = refl

module _ {A : Type 0} (p : A → Bool) where
  length-keep-le : (xs : List A) → length (keep p xs) ≤ length xs
  length-keep-le [] = omega arith
  length-keep-le (x ∷ xs) = elim (Bool-cases (p x)) [
    | inl t ↦ rw t (omega (arith, length-keep-le xs))
    | inr f ↦ rw f (omega (arith, length-keep-le xs))
  ]

  length-keep-cons : (x : A) (xs : List A) → length (keep p (x ∷ xs)) ≤ suc (length (keep p xs))
  length-keep-cons x xs = elim (Bool-cases (p x)) [
    | inl t ↦ rw t (omega arith)
    | inr f ↦ rw f (omega arith)
  ]

  length-keep-none : (xs : List A) → All (λ y. p y ≡ false) xs → length (keep p xs) ≡ 0
  length-keep-none [] h = refl
  length-keep-none (x ∷ xs) h = rw h.0 (length-keep-none xs h.1)

module _ {F : Type 0} ⦃fl : Floats F⦄ (st : Statistics F) where
  open fl use {lt}

  element_at-mem : (xs : List F) (i : ℕ) → i < length xs → Mem (element_at st xs i) xs
  element_at-mem (x ∷ xs) zero h = mem-cons_self
  element_at-mem (x ∷ xs) (suc i) h = mem-cons_of_mem x (element_at-mem xs i (omega (arith, h)))
  element_at-mem [] i h = let no : ⊥ = omega (arith, h) in elim no [ ]

  element_at-All :
      (P : F → Type 0) (xs : List F) (i : ℕ) → i < length xs → All P xs → P (element_at st xs i)
  element_at-All P (x ∷ xs) zero h a = a.0
  element_at-All P (x ∷ xs) (suc i) h a = element_at-All P xs i (omega (arith, h)) a.1
  element_at-All P [] i h a = let no : ⊥ = omega (arith, h) in elim no [ ]

  -- Of sorted samples at most `i` are smaller than the one at `i`,
  smaller :
      IsStrict lt
      → (xs : List F) (i : ℕ) → i < length xs
      → IsSorted lt xs
      → length (keep (λ y. lt y (element_at st xs i)) xs) ≤ i
  smaller s (x ∷ xs) zero h o =
      omega (arith, length-keep-none (λ y. lt y x) (x ∷ xs) (lt_self s x, o.0))
  smaller s (x ∷ xs) (suc i) h o = omega (
    arith,
    smaller s xs i (omega (arith, h)) o.1,
    length-keep-cons (λ y. lt y (element_at st xs i)) x xs,
  )
  smaller s [] i h o = omega (arith, h)

  -- and only those behind it can be larger.
  larger :
      IsStrict lt
      → (xs : List F) (i : ℕ) → i < length xs
      → IsSorted lt xs
      → length (keep (λ y. lt (element_at st xs i) y) xs) + i < length xs
  larger s (x ∷ xs) zero h o = rw (lt_self s x) (omega (arith, length-keep-le (λ y. lt x y) xs))
  larger s (x ∷ xs) (suc i) h o =
      let inside : i < length xs = omega (arith, h) in
      rw (element_at-All (λ y. lt y x ≡ false) xs i inside o.0)
        (omega (arith, larger s xs i inside o.1))
  larger s [] i h o = let no : ⊥ = omega (arith, h) in elim no [ ]

  percentile-element_at :
      (x : F) (xs : List F) (ratio : F) (last : ℕ)
      → length (sorted st (x ∷ xs)) - 1 ≡ last
      → percentile st (x ∷ xs) ratio
        ≡ element_at st
            (sorted st (x ∷ xs))
            (nearest last (st.truncate (fl.times (of_ℕ last) ratio)))
  unfolding percentile
  percentile-element_at x xs ratio last e = rw e (
      ap (element st (sorted st (x ∷ xs)))
        (clamped last (st.truncate (fl.times (of_ℕ last) ratio))))

  -- The percentile of samples is one of them, and the one whose rank, counted from 0, is the nearest
  -- that there is to what int() makes of the position: at most that many samples are smaller, and at
  -- most as many as have a higher rank are larger. The samples have to be in a strict weak order, as
  -- floats that are not NaN are.
  pub percentile_bounds :
      IsStrict lt
      → (x : F) (xs : List F) (ratio : F)
      → let p = percentile st (x ∷ xs) ratio in
        let rank = nearest (length xs) (st.truncate (fl.times (of_ℕ (length xs)) ratio)) in
        Mem p (x ∷ xs)
        × (length (keep (λ y. lt y p) (x ∷ xs)) ≤ rank)
        × (length (keep (λ y. lt p y) (x ∷ xs)) + rank ≤ length xs)
  unfolding sorted
  percentile_bounds s x xs ratio =
      let ordered = sort_by lt (x ∷ xs) in
      let count = length-sort_by lt (x ∷ xs) in
      let q = st.truncate (fl.times (of_ℕ (length xs)) ratio) in
      let i = nearest (length xs) q in
      let inside : i < length ordered = omega (arith, count, nearest-le (length xs) q) in
      let o = sort_by-IsSorted lt s (x ∷ xs) in
      let e = element_at st ordered i in
      let same : percentile st (x ∷ xs) ratio ≡ e =
        percentile-element_at x xs ratio (length xs) (omega (arith, count)) in
      subst
        (λ p.
          Mem p (x ∷ xs)
          × (length (keep (λ y. lt y p) (x ∷ xs)) ≤ i)
          × (length (keep (λ y. lt p y) (x ∷ xs)) + i ≤ length xs))
        (sym same)
        (
          (Perm.mem_iff (sort_by-perm lt (x ∷ xs))).0 (element_at-mem ordered i inside),
          subst (λ (n : ℕ). n ≤ i) (length-keep-sort_by lt (λ y. lt y e) (x ∷ xs))
              (smaller s ordered i inside o),
          subst (λ (n : ℕ). n + i ≤ length xs) (length-keep-sort_by lt (λ y. lt e y) (x ∷ xs))
              (omega (arith, count, larger s ordered i inside o)),
        )

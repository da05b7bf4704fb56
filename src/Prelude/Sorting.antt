-- ===== src/Prelude/Sorting.antt =====
-- Python's sorted() and list.sort(key=...): a sort by the comparison `<` that keeps items in order
-- of which none is smaller.
use mathlib.Core.Path.{◌≡◌, refl, ap}
use mathlib.Core.Logic.{inl, inr}
use mathlib.Core.Bool.{Bool, true, false}
use mathlib.Core.List.{List, [], ◌∷◌, Perm, map}
use mathlib.Core.List.Perm
use native.Mathlib.Omega.{arith}
use psyexp_net.Prelude.Tests.{if◌then◌else◌, Bool-cases}
use psyexp_net.Prelude.Lists.{All, keep, length}
use Prim.Native.Nat.{suc}

module _ {ℓ} {A : Type ℓ} (lt : A → A → Bool) where
  unfoldable pub insert_by : A → List A → List A
  insert_by x [] = x ∷ []
  insert_by x (y ∷ ys) = if lt y x then y ∷ insert_by x ys else x ∷ y ∷ ys

  unfoldable pub sort_by : List A → List A
  unfolding insert_by
  sort_by [] = []
  sort_by (x ∷ xs) = insert_by x (sort_by xs)

  insert_by-perm : (x : A) (xs : List A) → Perm (insert_by x xs) (x ∷ xs)
  unfolding insert_by
  insert_by-perm x [] = Perm.rfl
  insert_by-perm x (y ∷ ys) = elim (Bool-cases (lt y x)) [
    | inl t ↦ rw t (Perm.trans (Perm.cons y (insert_by-perm x ys)) (Perm.swap x y ys))
    | inr f ↦ rw f Perm.rfl
  ]

  pub sort_by-perm : (xs : List A) → Perm (sort_by xs) xs
  unfolding sort_by
  sort_by-perm [] = Perm.rfl
  sort_by-perm (x ∷ xs) = Perm.trans (insert_by-perm x (sort_by xs)) (Perm.cons x (sort_by-perm xs))

  All-insert_by : (P : A → Type 0) (x : A) (xs : List A) → P x → All P xs → All P (insert_by x xs)
  unfolding insert_by
  All-insert_by P x [] p h = (p, tt)
  All-insert_by P x (y ∷ ys) p h = elim (Bool-cases (lt y x)) [
    | inl t ↦ rw t (h.0, All-insert_by P x ys p h.1)
    | inr f ↦ rw f (p, h)
  ]

  pub All-sort_by : (P : A → Type 0) (xs : List A) → All P xs → All P (sort_by xs)
  unfolding sort_by
  All-sort_by P [] h = tt
  All-sort_by P (x ∷ xs) h = All-insert_by P x (sort_by xs) h.0 (All-sort_by P xs h.1)

  length-insert_by : (x : A) (xs : List A) → length (insert_by x xs) ≡ suc (length xs)
  unfolding insert_by
  length-insert_by x [] = refl
  length-insert_by x (y ∷ ys) = elim (Bool-cases (lt y x)) [
    | inl t ↦ rw t (ap suc (length-insert_by x ys))
    | inr f ↦ rw f refl
  ]

  pub length-sort_by : (xs : List A) → length (sort_by xs) ≡ length xs
  unfolding sort_by
  length-sort_by [] = refl
  length-sort_by (x ∷ xs) = rw (length-insert_by, length-sort_by xs) refl

  length-keep-insert_by :
      (p : A → Bool) (x : A) (xs : List A)
      → length (keep p (insert_by x xs)) ≡ length (keep p (x ∷ xs))
  unfolding insert_by
  length-keep-insert_by p x [] = refl
  length-keep-insert_by p x (y ∷ ys) = elim (Bool-cases (lt y x)) [
    | inl t ↦ rw t (ground (arith, length-keep-insert_by p x ys))
    | inr f ↦ rw f refl
  ]

  pub length-keep-sort_by :
      (p : A → Bool) (xs : List A) → length (keep p (sort_by xs)) ≡ length (keep p xs)
  unfolding sort_by
  length-keep-sort_by p [] = refl
  length-keep-sort_by p (x ∷ xs) =
      rw (length-keep-insert_by p x (sort_by xs)) (ground (arith, length-keep-sort_by p xs))

  -- Of two items that pass the test none is smaller.
  abbrev pub IsClass : (A → Bool) → Type ℓ
  IsClass p = (x y : A) → p x ≡ true → p y ≡ true → lt x y ≡ false

  keep-insert_by :
      (p : A → Bool) → IsClass p → (x : A) (xs : List A) → keep p (insert_by x xs) ≡ keep p (x ∷ xs)
  unfolding insert_by
  keep-insert_by p c x [] = refl
  keep-insert_by p c x (y ∷ ys) = elim (Bool-cases (lt y x)) [
    | inl t ↦ rw t (ground (arith, keep-insert_by p c x ys, c y x))
    | inr f ↦ rw f refl
  ]

  -- The sort is stable.
  pub keep-sort_by : (p : A → Bool) → IsClass p → (xs : List A) → keep p (sort_by xs) ≡ keep p xs
  unfolding sort_by
  keep-sort_by p c [] = refl
  keep-sort_by p c (x ∷ xs) = rw (keep-insert_by p c x (sort_by xs), keep-sort_by p c xs)

module _ {ℓ κ} {A : Type ℓ} {B : Type κ} (g : A → B) (lt : B → B → Bool) where
  insert_by-map :
      (x : A) (xs : List A)
      → insert_by lt (g x) (map g xs) ≡ map g (insert_by (λ a b. lt (g a) (g b)) x xs)
  unfolding insert_by
  insert_by-map x [] = refl
  insert_by-map x (y ∷ ys) = elim (Bool-cases (lt (g y) (g x))) [
    | inl t ↦ rw t (ap (◌∷◌ (g y)) (insert_by-map x ys))
    | inr f ↦ rw f refl
  ]

  pub sort_by-map :
      (xs : List A) → sort_by lt (map g xs) ≡ map g (sort_by (λ a b. lt (g a) (g b)) xs)
  unfolding sort_by
  sort_by-map [] = refl
  sort_by-map (x ∷ xs) = rw (sort_by-map xs) (insert_by-map x _)

-- What makes a comparison a strict weak order.
pub record IsStrict {ℓ} {A : Type ℓ} (lt : A → A → Bool) : Type ℓ where
  pub asym : (x y : A) → lt x y ≡ true → lt y x ≡ false
  pub through : (x y z : A) → lt y x ≡ false → lt z y ≡ false → lt z x ≡ false

module _ {ℓ} {A : Type ℓ} {lt : A → A → Bool} (strict : IsStrict lt) where
  pub lt_self : (a : A) → lt a a ≡ false
  lt_self a = elim (Bool-cases (lt a a)) [ inl t ↦ strict.asym a a t | inr f ↦ f ]

module _ {ℓ} {A : Type ℓ} (lt : A → A → Bool) where
  abbrev pub IsLeast : A → List A → Type 0
  IsLeast x = All (λ y. lt y x ≡ false)

  -- No item is smaller than one before it.
  abbrev pub IsSorted : List A → Type 0
  IsSorted [] = Unit
  IsSorted (x ∷ xs) = IsLeast x xs × IsSorted xs

module _ {ℓ} {A : Type ℓ} (lt : A → A → Bool) (strict : IsStrict lt) where
  IsLeast-below : (x y : A) (ys : List A) → lt y x ≡ false → IsLeast lt y ys → IsLeast lt x ys
  IsLeast-below x y [] h l = tt
  IsLeast-below x y (z ∷ zs) h l = (strict.through x y z h l.0, IsLeast-below x y zs h l.1)

  IsLeast-insert_by :
      (x y : A) (ys : List A) → lt x y ≡ false → IsLeast lt y ys → IsLeast lt y (insert_by lt x ys)
  unfolding insert_by
  IsLeast-insert_by x y [] h l = (h, tt)
  IsLeast-insert_by x y (z ∷ zs) h l = elim (Bool-cases (lt z x)) [
    | inl t ↦ rw t (l.0, IsLeast-insert_by x y zs h l.1)
    | inr f ↦ rw f (h, l)
  ]

  IsSorted-insert_by : (x : A) (xs : List A) → IsSorted lt xs → IsSorted lt (insert_by lt x xs)
  unfolding insert_by
  IsSorted-insert_by x [] s = (tt, tt)
  IsSorted-insert_by x (y ∷ ys) s = elim (Bool-cases (lt y x)) [
    | inl t ↦ rw t (IsLeast-insert_by x y ys (strict.asym y x t) s.0, IsSorted-insert_by x ys s.1)
    | inr f ↦ rw f ((f, IsLeast-below x y ys f s.0), s)
  ]

  pub sort_by-IsSorted : (xs : List A) → IsSorted lt (sort_by lt xs)
  unfolding sort_by
  sort_by-IsSorted [] = tt
  sort_by-IsSorted (x ∷ xs) = IsSorted-insert_by x (sort_by lt xs) (sort_by-IsSorted xs)

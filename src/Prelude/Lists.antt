-- ===== src/Prelude/Lists.antt =====
-- Lists measured by native numbers, and predicates and tests on lists by recursion.
use Prim.Native.Nat.{ℕ, zero, suc, ◌+◌, ◌≤◌}
use mathlib.Core.Path.{◌≡◌, refl, ap}
use mathlib.Core.Bool.{Bool, true, false, ◌||◌, ◌&&◌}
use mathlib.Core.List.{List, [], ◌∷◌, ◌++◌, map}
use native.Mathlib.Omega.{arith}
use psyexp_net.Prelude.Tests.{Eq, ◌==◌, if◌then◌else◌, Bool-cases}
use mathlib.Core.Logic.{inl, inr}

module _ {ℓ} {A : Type ℓ} where
  abbrev pub length : List A → ℕ
  length [] = 0
  length (x ∷ xs) = suc (length xs)

  abbrev pub take : ℕ → List A → List A
  take zero xs = []
  take (suc n) [] = []
  take (suc n) (x ∷ xs) = x ∷ take n xs

  -- A comprehension's `if`: the items that pass the test, in order.
  abbrev pub keep : (A → Bool) → List A → List A
  keep p [] = []
  keep p (x ∷ xs) = let rest = keep p xs in if p x then x ∷ rest else rest

  -- not xs
  abbrev pub is_empty : List A → Bool
  is_empty [] = true
  is_empty (x ∷ xs) = false

  pub length-append : (xs ys : List A) → length (xs ++ ys) ≡ length xs + length ys
  length-append [] ys = omega arith
  length-append (x ∷ xs) ys = omega (arith, length-append xs ys)

  pub length-take-le : (n : ℕ) (xs : List A) → length (take n xs) ≤ n
  length-take-le (suc n) (x ∷ xs) = omega (arith, length-take-le n xs)
  length-take-le _ _ = omega arith

-- Every item satisfies the predicate.
abbrev pub All {ℓ κ} : {A : Type ℓ} → (A → Type κ) → List A → Type κ
All P [] = Unit
All P (x ∷ xs) = P x × All P xs

pub All-append {ℓ κ} :
    {A : Type ℓ} (P : A → Type κ) (xs ys : List A) → All P xs → All P ys → All P (xs ++ ys)
All-append P [] ys hx hy = hy
All-append P (x ∷ xs) ys hx hy = (hx.0, All-append P xs ys hx.1 hy)

pub length-map {ℓ κ} :
    {A : Type ℓ} {B : Type κ} (f : A → B) (xs : List A) → length (map f xs) ≡ length xs
length-map f [] = refl
length-map f (x ∷ xs) = ap suc (length-map f xs)

-- `x in xs`.
abbrev pub contains {ℓ} : {A : Type ℓ} ⦃e : Eq A⦄ → A → List A → Bool
contains x [] = false
contains x (y ∷ ys) = x == y || contains x ys

pub All-keep {ℓ κ} :
    {A : Type ℓ} (P : A → Type κ) (p : A → Bool) (xs : List A) → All P xs → All P (keep p xs)
All-keep P p [] h = tt
All-keep P p (x ∷ xs) h = elim (Bool-cases (p x)) [
  | inl t ↦ rw t (h.0, All-keep P p xs h.1)
  | inr f ↦ rw f (All-keep P p xs h.1)
]

-- Each item that is kept passes the test.
pub keep-All {ℓ} : {A : Type ℓ} (p : A → Bool) (xs : List A) → All (λ x. p x ≡ true) (keep p xs)
keep-All p [] = tt
keep-All p (x ∷ xs) = elim (Bool-cases (p x)) [
  | inl t ↦ rw t (t, keep-All p xs)
  | inr f ↦ rw f (keep-All p xs)
]

pub keep-map {ℓ κ} :
    {A : Type ℓ} {B : Type κ} (f : A → B) (p : B → Bool) (xs : List A)
    → keep p (map f xs) ≡ map f (keep (λ x. p (f x)) xs)
keep-map f p [] = refl
keep-map f p (x ∷ xs) = elim (Bool-cases (p (f x))) [
  | inl t ↦ rw t (ap (◌∷◌ (f x)) (keep-map f p xs))
  | inr g ↦ rw g (keep-map f p xs)
]

pub keep-keep {ℓ} :
    {A : Type ℓ} (p q : A → Bool) (xs : List A) → keep p (keep q xs) ≡ keep (λ x. q x && p x) xs
keep-keep p q [] = refl
keep-keep p q (x ∷ xs) = elim (Bool-cases (q x)) [
  | inl t ↦ rw t (ground (arith, keep-keep p q xs))
  | inr f ↦ rw f (keep-keep p q xs)
]

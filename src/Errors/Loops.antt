-- ===== src/Errors/Loops.antt =====
-- Loops and comprehensions over a list whose steps may raise.
use psyexp_net.Prelude.{
  Bool, true, false, Option, none, some, List, [], ◌∷◌, ◌++◌, map, keep, length, All, ◌≡◌, refl,
  inl, inr, Bool-cases, Option-cases, suc, ap, if◌then◌else◌,
}
use mathlib.Core.Option
use psyexp_net.Errors.{Error, Result, ok, err, ◌>>=◌}

abbrev pub is_some {ℓ} : {A : Type ℓ} → Option A → Bool
is_some none = false
is_some (some a) = true

-- for x in xs: the results, or the first exception
abbrev pub traverse {ℓ κ} : {A : Type ℓ} {B : Type κ} → (A → Result B) → List A → Result (List B)
traverse f [] = ok []
traverse f (x ∷ xs) = do y ← f x; ys ← traverse f xs; ok (y ∷ ys)

-- A comprehension with an `if` that may raise.
abbrev pub select {ℓ} : {A : Type ℓ} → (A → Result Bool) → List A → Result (List A)
select p [] = ok []
select p (x ∷ xs) = do b ← p x; rest ← select p xs; ok (if b then x ∷ rest else rest)

-- for x in xs: one more result for some of them, until one raises
abbrev pub gather {ℓ κ} :
    {A : Type ℓ} {B : Type κ} → (A → Result (Option B)) → List A → Result (List B)
gather f [] = ok []
gather f (x ∷ xs) = do r ← f x; rest ← gather f xs; ok (elim r [ none ↦ rest | some y ↦ y ∷ rest ])

-- next((x for x in xs if ...), None)
abbrev pub first {ℓ} : {A : Type ℓ} → (A → Result Bool) → List A → Result (Option A)
first p [] = ok none
first p (x ∷ xs) = do b ← p x; elim b [ true ↦ ok (some x) | false ↦ first p xs ]

-- The first item that passes the test.
abbrev pub find {ℓ} : {A : Type ℓ} → (A → Bool) → List A → Option A
find p [] = none
find p (x ∷ xs) = let rest = find p xs in if p x then some x else rest

-- The values that are there.
abbrev pub somes {ℓ} : {A : Type ℓ} → List (Option A) → List A
somes [] = []
somes (none ∷ os) = somes os
somes (some a ∷ os) = a ∷ somes os

module _ {ℓ κ} {A : Type ℓ} {B : Type κ} (g : A → B) where
  pub gather-somes {μ} :
      {C : Type μ} (f : B → Result (Option C)) (h : A → Option C)
      → ((x : A) → f (g x) ≡ ok (h x))
      → (xs : List A) → gather f (map g xs) ≡ ok (somes (map h xs))
  gather-somes f h e [] = refl
  gather-somes f h e (x ∷ xs) = elim (Option-cases (h x)) [
    | inl n ↦ rw (e x, gather-somes f h e xs, n) refl
    | inr (y, n) ↦ rw (e x, gather-somes f h e xs, n) refl
  ]

  -- The first exception ends the loop.
  pub gather-append_err {μ} :
      {C : Type μ} (f : B → Result (Option C)) (h : A → Option C) (y : B) (ys : List B) {r : Error}
      → ((x : A) → f (g x) ≡ ok (h x))
      → f y ≡ err r
      → (xs : List A) → gather f (map g xs ++ y ∷ ys) ≡ err r
  gather-append_err f h y ys e raises [] = rw raises refl
  gather-append_err f h y ys e raises (x ∷ xs) =
      rw (e x, gather-append_err f h y ys e raises xs) refl

  pub traverse-map {μ} :
      {C : Type μ} (f : B → Result C) (h : A → C)
      → ((x : A) → f (g x) ≡ ok (h x))
      → (xs : List A) → traverse f (map g xs) ≡ ok (map h xs)
  traverse-map f h e [] = refl
  traverse-map f h e (x ∷ xs) = rw (e x, traverse-map f h e xs)

  pub select-map :
      (test : B → Result Bool) (p : A → Bool)
      → ((x : A) → test (g x) ≡ ok (p x))
      → (xs : List A) → select test (map g xs) ≡ ok (map g (keep p xs))
  select-map test p e [] = refl
  select-map test p e (x ∷ xs) = elim (Bool-cases (p x)) [
    | inl t ↦ rw (e x, select-map test p e xs, t) refl
    | inr f ↦ rw (e x, select-map test p e xs, f) refl
  ]

  pub gather-map {μ} :
      {C : Type μ} (f : B → Result (Option C)) (p : A → Bool) (h : A → C)
      → ((x : A) → f (g x) ≡ ok (if p x then some (h x) else none))
      → (xs : List A) → gather f (map g xs) ≡ ok (map h (keep p xs))
  gather-map f p h e [] = refl
  gather-map f p h e (x ∷ xs) = elim (Bool-cases (p x)) [
    | inl t ↦ rw (e x, gather-map f p h e xs, t) refl
    | inr u ↦ rw (e x, gather-map f p h e xs, u) refl
  ]

  pub first-map :
      (test : B → Result Bool) (p : A → Bool)
      → ((x : A) → test (g x) ≡ ok (p x))
      → (xs : List A) → first test (map g xs) ≡ ok (Option.map g (find p xs))
  first-map test p e [] = refl
  first-map test p e (x ∷ xs) = elim (Bool-cases (p x)) [
    | inl t ↦ rw (e x, t) refl
    | inr f ↦ rw (e x, f) (first-map test p e xs)
  ]

  -- A step that gives a result exactly for the items that pass the test.
  abbrev pub Gives {μ} : {C : Type μ} → (B → Result (Option C)) → (A → Bool) → A → Type μ
  Gives {C} f p x = (r : Option C) × (f (g x) ≡ ok r) × (is_some r ≡ p x)

  pub gather-length {μ} :
      {C : Type μ} (f : B → Result (Option C)) (p : A → Bool) (xs : List A)
      → All (Gives f p) xs
      → (ys : List C) × (gather f (map g xs) ≡ ok ys) × (length ys ≡ length (keep p xs))
  gather-length f p [] h = ([], refl, refl)
  gather-length f p (x ∷ xs) h =
      let (r, e, k) = h.0 in
      let (ys, es, l) = gather-length f p xs h.1 in
      elim (Option-cases r) [
        | inl n ↦ (ys, rw (e, es, n) refl, rw (← k, n) l)
        | inr (y, n) ↦ (y ∷ ys, rw (e, es, n) refl, rw (← k, n) (ap suc l))
      ]

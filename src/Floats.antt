-- ===== src/Floats.antt =====
-- Python's numbers. A float is an element of an abstract type with the operations that the program
-- applies to it; nothing is assumed of them here. A theorem that needs a law of float arithmetic
-- takes it as a hypothesis. `ℤ` is the type of Python's ints where they can be negative.
use psyexp_net.Prelude.{ℕ, String, Option, Bool, List, [], ◌∷◌, if◌then◌else◌}

-- `negsuc n` is -(n + 1).
pub data ℤ : Type 0 where
  pos : ℕ → ℤ
  negsuc : ℕ → ℤ

pub record Floats (F : Type 0) : Type 0 where
  pub plus : F → F → F
  pub minus : F → F → F
  pub times : F → F → F
  pub over : F → F → F
  pub lt : F → F → Bool
  pub le : F → F → Bool
  pub of_ℤ : ℤ → F
  -- the float nearest to the quotient of two numbers: `lit 5 100` is the literal 0.05
  pub lit : ℕ → ℕ → F
  pub abs : F → F
  -- float(s), with `none` for a ValueError
  pub parse_float : String → Option F

module _ {F : Type 0} ⦃fl : Floats F⦄ where
  open fl use {lt, of_ℤ, over}

  abbrev pub of_ℕ : ℕ → F
  of_ℕ n = of_ℤ (pos n)

  -- n / 1000, for a configured number of milliseconds
  abbrev pub seconds : ℕ → F
  seconds n = over (of_ℕ n) (of_ℕ 1000)

  -- max(a, b): the first of the two unless the second is larger
  abbrev pub max2 : F → F → F
  max2 a b = if lt a b then b else a

  -- min(a, b): the first of the two unless the second is smaller
  abbrev pub min2 : F → F → F
  min2 a b = if lt b a then b else a

  -- max(a, *xs) and min(a, *xs)
  unfoldable pub max_from : F → List F → F
  max_from a [] = a
  max_from a (x ∷ xs) = max_from (max2 a x) xs

  unfoldable pub min_from : F → List F → F
  min_from a [] = a
  min_from a (x ∷ xs) = min_from (min2 a x) xs

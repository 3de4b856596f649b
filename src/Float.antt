-- ===== src/Float.antt =====
-- Python's `float`, which the repository does not implement: the operations that its code uses, as
-- a parameter of the definitions that use them.
use geotrack.Prelude.{Bool, if◌then◌else◌}
use geotrack.Prelude.Int.{ℤ}

pub record Floats : Type 1 where
  pub F : Type 0
  pub le : F → F → Bool
  pub lt : F → F → Bool
  pub add : F → F → F
  pub sub : F → F → F
  pub mul : F → F → F
  pub mod_ : F → F → F
  pub div : F → F → F
  -- `math.floor`, `math.isfinite` and `math.nextafter`
  pub floor : F → ℤ
  pub is_finite : F → Bool
  pub nextafter : F → F → F
  -- the literal `n.0`
  pub literal : ℤ → F

module _ (fl : Floats) where
  open fl use {F, lt}

  -- Python's `max(a, b)` and `min(a, b)` keep the first of two equal values.
  abbrev pub max_of : F → F → F
  max_of a b = if lt a b then b else a

  abbrev pub min_of : F → F → F
  min_of a b = if lt b a then b else a

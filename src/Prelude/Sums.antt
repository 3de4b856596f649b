-- ===== src/Prelude/Sums.antt =====
-- Sums over a list, a list of lists put together, and how often a number stands in a list.
use Prim.Native.Nat.{ℕ, ◌+◌}
use mathlib.Core.Path.{◌≡◌, refl}
use mathlib.Core.List.{List, [], ◌∷◌, ◌++◌}
use native.Mathlib.Omega.{arith}
use geotrack.Prelude.Tests.{◌==◌, if◌then◌else◌}
use geotrack.Prelude.Lists.{length, length-append}

module _ {ℓ} {A : Type ℓ} where
  -- `sum(w(x) for x in xs)`
  abbrev pub total : (A → ℕ) → List A → ℕ
  total w [] = 0
  total w (x ∷ xs) = w x + total w xs

  pub total-append : (w : A → ℕ) (xs ys : List A) → total w (xs ++ ys) ≡ total w xs + total w ys
  total-append w [] ys = omega arith
  total-append w (x ∷ xs) ys = omega (arith, total-append w xs ys)

  abbrev pub concat : List (List A) → List A
  concat [] = []
  concat (xs ∷ xss) = xs ++ concat xss

module _ {ℓ} {A : Type ℓ} where
  pub length-concat : (xss : List (List A)) → length (concat xss) ≡ total length xss
  length-concat [] = refl
  length-concat (xs ∷ xss) = omega (arith, length-append xs (concat xss), length-concat xss)

abbrev pub times : ℕ → List ℕ → ℕ
times i [] = 0
times i (j ∷ js) = (if i == j then 1 else 0) + times i js

pub times-append : (i : ℕ) (js ks : List ℕ) → times i (js ++ ks) ≡ times i js + times i ks
times-append i [] ks = omega arith
times-append i (j ∷ js) ks = omega (arith, times-append i js ks)

-- ===== src/Prelude/Text.antt =====
-- Native texts as dictionary keys, byte strings as lists, and `b",".join`.
use Prim.Native.Nat.{ℕ}
use Prim.Native.String.{String}
use mathlib.Core.Path.{◌≡◌}
use mathlib.Core.Bool.{Bool, true, false}
use mathlib.Core.List.{List, [], ◌∷◌, ◌++◌}
use text.Mathlib.Text.{◌==◌ as str_eq}
use text.Mathlib.TextEquality.{eq_iff}

abbrev decide_eq : (s t : String) (b : Bool) → str_eq s t ≡ b → Dec (s ≡ t)
decide_eq s t true e = yes ((eq_iff s t).0 e)
decide_eq s t false e = no (λ p. differ ((eq_iff s t).1 p))
  where
    differ : str_eq s t ≡ true → ⊥
    differ h = cc

unfoldable pub String-discrete : Discrete String
String-discrete s t = decide_eq s t (str_eq s t) (λ _. str_eq s t)

abbrev pub Bytes : Type 0
Bytes = List ℕ

-- `sep.join(parts)`
unfoldable pub join : Bytes → List Bytes → Bytes
join sep [] = []
join sep (b ∷ []) = b
join sep (b ∷ c ∷ rest) = b ++ (sep ++ join sep (c ∷ rest))

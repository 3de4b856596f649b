-- ===== src/Prelude/Int.antt =====
-- Signed integers over the native numbers: Python's `int` where the program does not keep it
-- positive (epoch milliseconds from a device, cell indices).
use Prim.Native.Nat.{ℕ, zero, suc, ◌+◌, ◌-◌, ◌*◌, ◌≤◌, ◌<◌}
use mathlib.Core.Path.{◌≡◌}
use mathlib.Core.Bool.{Bool, true}
use mathlib.Core.List.{List, [], ◌∷◌}
use native.Mathlib.Omega.{arith}
use native.Mathlib.Decide.{ℕ_discrete}
use geotrack.Prelude.Tests.{ltb, leb, if◌then◌else◌}
use geotrack.Prelude.Lists.{In, here, there}

-- `negsuc n` is -(n + 1).
pub data ℤ : Type 0 where
  pos : ℕ → ℤ
  negsuc : ℕ → ℤ

abbrev pub pos_part : ℤ → ℕ
pos_part (pos n) = n
pos_part (negsuc n) = 0

abbrev pub neg_part : ℤ → ℕ
neg_part (pos n) = 0
neg_part (negsuc n) = suc n

-- a - b, as an integer.
abbrev pub sub_ℕ : ℕ → ℕ → ℤ
sub_ℕ a b = if leb b a then pos (a - b) else negsuc (b - a - 1)

infixl 65 ◌+ℤ◌ ◌-ℤ◌
infix 50 ◌≤ℤ◌ ◌<ℤ◌
unfoldable pub ◌+ℤ◌ : ℤ → ℤ → ℤ
a +ℤ b = sub_ℕ (pos_part a + pos_part b) (neg_part a + neg_part b)

unfoldable pub ◌-ℤ◌ : ℤ → ℤ → ℤ
a -ℤ b = sub_ℕ (pos_part a + neg_part b) (neg_part a + pos_part b)

infixl 70 ◌*ℤ◌
unfoldable pub ◌*ℤ◌ : ℤ → ℤ → ℤ
a *ℤ b =
    sub_ℕ (pos_part a * pos_part b + neg_part a * neg_part b)
      (pos_part a * neg_part b + neg_part a * pos_part b)

abbrev pub ◌≤ℤ◌ : ℤ → ℤ → Type 0
a ≤ℤ b = pos_part a + neg_part b ≤ pos_part b + neg_part a

abbrev pub ◌<ℤ◌ : ℤ → ℤ → Type 0
a <ℤ b = pos_part a + neg_part b < pos_part b + neg_part a

abbrev pub leb_ℤ : ℤ → ℤ → Bool
leb_ℤ a b = leb (pos_part a + neg_part b) (pos_part b + neg_part a)

abbrev pub ltb_ℤ : ℤ → ℤ → Bool
ltb_ℤ a b = ltb (pos_part a + neg_part b) (pos_part b + neg_part a)

pub leb_ℤ→≤ℤ : (a b : ℤ) → leb_ℤ a b ≡ true → a ≤ℤ b
leb_ℤ→≤ℤ a b h = ground arith

pub ≤ℤ→leb_ℤ : (a b : ℤ) → a ≤ℤ b → leb_ℤ a b ≡ true
≤ℤ→leb_ℤ a b h = ground arith

pub ≤ℤ_antisymm : (a b : ℤ) → a ≤ℤ b → b ≤ℤ a → a ≡ b
≤ℤ_antisymm a b h k = ground arith

unfoldable pub ℤ-discrete : Discrete ℤ
unfolding ℕ_discrete
ℤ-discrete = hlevel ℕ_discrete

-- `range(lo, hi)`
count_up : ℕ → ℤ → List ℤ
count_up zero x = []
count_up (suc n) x = x ∷ count_up n (x +ℤ pos 1)

unfoldable pub range : ℤ → ℤ → List ℤ
unfolding count_up ◌-ℤ◌
range lo hi = count_up (pos_part (hi -ℤ lo)) lo

In-count_up : (n : ℕ) (lo x : ℤ) → lo ≤ℤ x → x <ℤ lo +ℤ pos n → In x (count_up n lo)
unfolding count_up ◌+ℤ◌
In-count_up zero lo x h k = absurd (ground arith)
In-count_up (suc n) lo x h k = elim (ℤ-discrete lo x) [
  | yes p ↦ rw p here
  | no p ↦
      let apart = ≤ℤ_antisymm lo x h in
      there (In-count_up n (lo +ℤ pos 1) x (ground (arith, apart)) (ground (arith, apart)))
]

count_up_bounds : (n : ℕ) (lo x : ℤ) → In x (count_up n lo) → (lo ≤ℤ x) × (x <ℤ lo +ℤ pos n)
unfolding count_up ◌+ℤ◌
count_up_bounds zero lo x m = elim m [ ]
count_up_bounds (suc n) lo x here = (ground arith, ground arith)
count_up_bounds (suc n) lo x (there m) =
    let ih = count_up_bounds n (lo +ℤ pos 1) x m in (ground (arith, ih), ground (arith, ih))

-- The half-open range that Python's `range` is.
pub In-range : (lo hi x : ℤ) → lo ≤ℤ x → x <ℤ hi → In x (range lo hi)
unfolding range
In-range lo hi x h k = In-count_up (pos_part (hi -ℤ lo)) lo x h (unfold ◌+ℤ◌ ◌-ℤ◌ in ground arith)

pub range_bounds : (lo hi x : ℤ) → In x (range lo hi) → (lo ≤ℤ x) × (x <ℤ hi)
unfolding range ◌+ℤ◌ ◌-ℤ◌
range_bounds lo hi x m =
    let b = count_up_bounds (pos_part (hi -ℤ lo)) lo x m in (b.0, ground (arith, b))

-- ===== src/Geo.antt =====
-- src/geotrack/geo.py: bounding boxes, which may cross the antimeridian.
use geotrack.Prelude.{
  ℕ, Bool, false, not, ◌&&◌, ◌||◌, List, [], ◌∷◌, Option, none, some, ◌==◌, if◌then◌else◌,
}
use geotrack.Prelude.Int.{ℤ, pos, negsuc}
use geotrack.Prelude.Result.{Result, ok, raise, ◌>>=◌}
use geotrack.Float.{Floats}

-- The `ValueError`s of this module.
pub data BBoxError : Type 0 where
  not_finite bad_longitude bad_latitude south_above_north not_four not_numbers : BBoxError

pub record BBox (fl : Floats) : Type 0 where
  pub west : fl.F
  pub south : fl.F
  pub east : fl.F
  pub north : fl.F

-- the fields of a comma-separated text
extend : ℕ → List (List ℕ) → List (List ℕ)
extend c [] = (c ∷ []) ∷ []
extend c (w ∷ ws) = (c ∷ w) ∷ ws

unfoldable pub split_comma : List ℕ → List (List ℕ)
unfolding extend
split_comma [] = [] ∷ []
split_comma (c ∷ cs) = let rest = split_comma cs in if c == b',' then [] ∷ rest else extend c rest

module _ (fl : Floats) where
  open fl use {F, le, lt, is_finite, literal}

  abbrev within : ℤ → ℤ → F → Bool
  within lo hi x = le (literal lo) x && le x (literal hi)

  -- `BBox(...)`: the dataclass constructor with `__post_init__`
  unfoldable pub make : F → F → F → F → Result BBoxError (BBox fl)
  make west south east north =
      if not (is_finite west && (is_finite south && (is_finite east && is_finite north)))
      then raise not_finite
      else if not (within (negsuc 179) (pos 180) west && within (negsuc 179) (pos 180) east)
      then raise bad_longitude
      else if not (within (negsuc 89) (pos 90) south && within (negsuc 89) (pos 90) north)
      then raise bad_latitude
      else if lt north south
      then raise south_above_north
      else ok (record { west = west; south = south; east = east; north = north })

  -- `float(p) for p in parts`, unpacked to four
  four_floats : (List ℕ → Option F) → List (List ℕ) → Result BBoxError (F × F × F × F)
  four_floats to_float (w ∷ s ∷ e ∷ n ∷ []) = elim (to_float w) [
    | none ↦ raise not_numbers
    | some west ↦ elim (to_float s) [
      | none ↦ raise not_numbers
      | some south ↦ elim (to_float e) [
        | none ↦ raise not_numbers
        | some east ↦ elim (to_float n) [
          | none ↦ raise not_numbers
          | some north ↦ ok (west, south, east, north)
        ]
      ]
    ]
  ]
  four_floats to_float _ = raise not_four

  -- `to_float` is Python's `float(str)`, with `none` for its `ValueError`.
  unfoldable pub parse : (List ℕ → Option F) → List ℕ → Result BBoxError (BBox fl)
  unfolding four_floats split_comma make
  parse to_float raw = do
    (west, south, east, north) ← four_floats to_float (split_comma raw)
    make west south east north

  unfoldable pub crosses_antimeridian : BBox fl → Bool
  crosses_antimeridian b = lt b.east b.west

  unfoldable pub parts : BBox fl → Result BBoxError (List (BBox fl))
  unfolding crosses_antimeridian make
  parts b = if not (crosses_antimeridian b) then ok (b ∷ []) else do
    east_part ← make b.west b.south (literal (pos 180)) b.north
    west_part ← make (literal (negsuc 179)) b.south b.east b.north
    ok (east_part ∷ west_part ∷ [])

  unfoldable pub contains : BBox fl → F → F → Bool
  unfolding crosses_antimeridian
  contains b lat lon =
      if not (le b.south lat && le lat b.north)
      then false
      else if crosses_antimeridian b
      then le b.west lon || le lon b.east
      else le b.west lon && le lon b.east

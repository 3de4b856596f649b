-- ===== src/Realtime/Grid.antt =====
-- src/geotrack/realtime/grid.py: cells, and the rectangles of cells of a viewport.
use geotrack.Prelude.{Bool, List, map, if◌then◌else◌, any, ◌&&◌, ℕ_discrete}
use geotrack.Prelude.Int.{ℤ, pos, negsuc, leb_ℤ, ℤ-discrete}
use geotrack.Prelude.Result.{Result, ok, ◌>>=◌}
use geotrack.Float.{Floats, max_of, min_of}
use geotrack.Geo.{BBox, BBoxError, parts}

abbrev pub Cell : Type 0
Cell = ℤ × ℤ

unfoldable pub Cell-discrete : Discrete Cell
unfolding ℤ-discrete ℕ_discrete
Cell-discrete = hlevel ℕ_discrete

pub record CellRect : Type 0 where
  pub min_x : ℤ
  pub min_y : ℤ
  pub max_x : ℤ
  pub max_y : ℤ

unfoldable pub contains : CellRect → Cell → Bool
contains r (x, y) = (leb_ℤ r.min_x x && leb_ℤ x r.max_x) && (leb_ℤ r.min_y y && leb_ℤ y r.max_y)

unfoldable pub covers : List CellRect → Cell → Bool
unfolding contains
covers rects cell = any (λ r. contains r cell) rects

module _ (fl : Floats) where
  open fl use {F, le, add, sub, mod_, div, floor, nextafter, literal}

  abbrev pub wrap_lon : F → F
  wrap_lon lon = sub (mod_ (add lon (literal (pos 180))) (literal (pos 360))) (literal (pos 180))

  unfoldable pub row_of : F → F → ℤ
  row_of lat size_deg =
      floor (div (min_of fl (max_of fl lat (literal (negsuc 89))) (literal (pos 90))) size_deg)

  unfoldable pub column_of : F → F → ℤ
  column_of lon size_deg =
      if le (literal (pos 180)) lon
      then floor (div (nextafter (literal (pos 180)) (literal (pos 0))) size_deg)
      else floor (div (wrap_lon lon) size_deg)

  unfoldable pub cell_of : F → F → F → Cell
  unfolding row_of
  cell_of lat lon size_deg = (floor (div (wrap_lon lon) size_deg), row_of lat size_deg)

  unfoldable pub rect : F → BBox fl → CellRect
  unfolding row_of column_of
  rect size_deg part = record {
    min_x = column_of part.west size_deg;
    min_y = row_of part.south size_deg;
    max_x = column_of part.east size_deg;
    max_y = row_of part.north size_deg;
  }

  unfoldable pub rects_for : BBox fl → F → Result BBoxError (List CellRect)
  unfolding rect parts
  rects_for bbox size_deg = do ps ← parts fl bbox; ok (map (rect size_deg) ps)

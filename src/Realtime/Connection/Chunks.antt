-- ===== src/Realtime/Connection/Chunks.antt =====
-- Both sides of the join of `_visible_chunks` pick the same chunks.
use geotrack.Prelude.{
  ◌≡◌, refl, ◌↔◌, true, List, [], ◌∷◌, ◌++◌, ◌⊎◌, inl, inr, Option, none, some, arith, In, here,
  there, In-append_left, In-append_right, Bool-cases, Option-cases, length,
}
use geotrack.Prelude.Int.{ℤ, pos, ◌+ℤ◌, leb_ℤ, range, In-range, range_bounds}
use geotrack.Prelude.Dict.{Dict, get, Distinct, In-get, get-In}
use geotrack.Prelude.Text.{Bytes}
use geotrack.Float.{Floats}
use geotrack.Realtime.Grid.{Cell, CellRect, contains, covers, Cell-discrete as same_cell}
use geotrack.Realtime.Hub.{TickDelta}
use geotrack.Realtime.Connection.{
  Connection, chunks_in_column, chunks_in_columns, chunks_by_cell, chunks_by_delta, visible_chunks,
}

In-append {ℓ} : {A : Type ℓ} {a : A} (xs ys : List A) → In a (xs ++ ys) → In a xs ⊎ In a ys
In-append [] ys m = inr m
In-append (x ∷ xs) ys here = inl here
In-append (x ∷ xs) ys (there m) = elim (In-append xs ys m) [ inl l ↦ inl (there l) | inr r ↦ inr r ]

-- The delta holds the chunk at a cell that the viewport covers.
abbrev pub Picks : List CellRect → Dict Cell Bytes → Bytes → Type 0
Picks viewport chunks b =
    (c : Cell) × (covers viewport c ≡ true) × (get same_cell c chunks ≡ some b)

-- A rectangle is its two ranges.
contains_of_ranges :
    (r : CellRect) (x y : ℤ)
    → In x (range r.min_x (r.max_x +ℤ pos 1))
    → In y (range r.min_y (r.max_y +ℤ pos 1))
    → contains r (x, y) ≡ true
unfolding contains ◌+ℤ◌
contains_of_ranges r x y i j = ground (
  arith,
  range_bounds r.min_x (r.max_x +ℤ pos 1) x i,
  range_bounds r.min_y (r.max_y +ℤ pos 1) y j,
)

ranges_of_contains :
    (r : CellRect) (x y : ℤ)
    → contains r (x, y) ≡ true
    → In x (range r.min_x (r.max_x +ℤ pos 1)) × In y (range r.min_y (r.max_y +ℤ pos 1))
unfolding contains ◌+ℤ◌
ranges_of_contains r x y h = (
  In-range r.min_x (r.max_x +ℤ pos 1) x (ground arith) (ground arith),
  In-range r.min_y (r.max_y +ℤ pos 1) y (ground arith) (ground arith),
)

module _ (chunks : Dict Cell Bytes) (b : Bytes) where
  abbrev Found : ℤ → ℤ → Type 0
  Found x y = get same_cell (x, y) chunks ≡ some b

  column_step :
      (x y : ℤ) (ys : List ℤ) (o : Option Bytes)
      → get same_cell (x, y) chunks ≡ o
      → (In b (chunks_in_column chunks x ys) → (z : ℤ) × In z ys × Found x z)
      → In b (elim o [
        | none ↦ chunks_in_column chunks x ys
        | some chunk ↦ chunk ∷ chunks_in_column chunks x ys
      ])
      → (z : ℤ) × In z (y ∷ ys) × Found x z
  column_step x y ys none e ih m = let (z, i, g) = ih m in (z, there i, g)
  column_step x y ys (some c) e ih here = (y, here, e)
  column_step x y ys (some c) e ih (there m) = let (z, i, g) = ih m in (z, there i, g)

  column_sound :
      (x : ℤ) (ys : List ℤ) → In b (chunks_in_column chunks x ys) → (y : ℤ) × In y ys × Found x y
  unfolding chunks_in_column
  column_sound x [] m = elim m [ ]
  column_sound x (y ∷ ys) m =
      column_step x y ys (get same_cell (x, y) chunks) refl (column_sound x ys) m

  column_complete :
      (x y : ℤ) (ys : List ℤ) → In y ys → Found x y → In b (chunks_in_column chunks x ys)
  unfolding chunks_in_column
  column_complete x y [] i g = elim i [ ]
  column_complete x y (_ ∷ ys) here g = rw (g, chunks_in_column) here
  column_complete x y (z ∷ ys) (there i) g = elim (Option-cases (get same_cell (x, z) chunks)) [
    | inl e ↦ rw (e, chunks_in_column) (column_complete x y ys i g)
    | inr (c, e) ↦ rw (e, chunks_in_column) (there (column_complete x y ys i g))
  ]

  columns_sound :
      (xs ys : List ℤ)
      → In b (chunks_in_columns chunks xs ys)
      → (x : ℤ) × (y : ℤ) × In x xs × In y ys × Found x y
  unfolding chunks_in_columns
  columns_sound [] ys m = elim m [ ]
  columns_sound (x ∷ xs) ys m =
      elim (In-append (chunks_in_column chunks x ys) (chunks_in_columns chunks xs ys) m) [
        | inl l ↦ let (y, i, g) = column_sound x ys l in (x, y, here, i, g)
        | inr r ↦ let (x', y, i, j, g) = columns_sound xs ys r in (x', y, there i, j, g)
      ]

  columns_complete :
      (x y : ℤ) (xs ys : List ℤ)
      → In x xs
      → In y ys
      → Found x y
      → In b (chunks_in_columns chunks xs ys)
  unfolding chunks_in_columns
  columns_complete x y [] ys i j g = elim i [ ]
  columns_complete x y (_ ∷ xs) ys here j g = In-append_left _ (column_complete x y ys j g)
  columns_complete x y (x' ∷ xs) ys (there i) j g =
      In-append_right (chunks_in_column chunks x' ys) (columns_complete x y xs ys i j g)

  by_cell_sound :
      (viewport : List CellRect) → In b (chunks_by_cell chunks viewport) → Picks viewport chunks b
  unfolding chunks_by_cell covers
  by_cell_sound [] m = elim m [ ]
  by_cell_sound (r ∷ rects) m = elim (In-append _ (chunks_by_cell chunks rects) m) [
    | inl l ↦
        let (x, y, i, j, g) = columns_sound _ _ l in
        let inside = contains_of_ranges r x y i j in ((x, y), ground arith, g)
    | inr n ↦ let (c, v, g) = by_cell_sound rects n in (c, ground arith, g)
  ]

  by_cell_complete :
      (viewport : List CellRect) → Picks viewport chunks b → In b (chunks_by_cell chunks viewport)
  unfolding chunks_by_cell covers
  by_cell_complete [] (c, v, g) = absurd (ground arith)
  by_cell_complete (r ∷ rects) (c, v, g) = elim (Bool-cases (contains r c)) [
    | inl hit ↦
        let (i, j) = ranges_of_contains r c.0 c.1 hit in
        In-append_left _ (columns_complete c.0 c.1 _ _ i j g)
    | inr miss ↦ In-append_right _ (by_cell_complete rects (c, ground arith, g))
  ]

  delta_step :
      (viewport : List CellRect) (c : Cell) (d : Bytes) (ds : Dict Cell Bytes)
      → covers viewport c ≡ true
      → (In b (chunks_by_delta viewport ds)
          → (e : Cell) × (covers viewport e ≡ true) × In (e, b) ds)
      → In b (d ∷ chunks_by_delta viewport ds)
      → (e : Cell) × (covers viewport e ≡ true) × In (e, b) ((c, d) ∷ ds)
  delta_step viewport c d ds v ih here = (c, v, here)
  delta_step viewport c d ds v ih (there m) = let (e, w, i) = ih m in (e, w, there i)

  by_delta_sound :
      (viewport : List CellRect) (ds : Dict Cell Bytes)
      → In b (chunks_by_delta viewport ds)
      → (c : Cell) × (covers viewport c ≡ true) × In (c, b) ds
  unfolding chunks_by_delta
  by_delta_sound viewport [] m = elim m [ ]
  by_delta_sound viewport ((c, d) ∷ ds) m = elim (Bool-cases (covers viewport c)) [
    | inl v ↦ delta_step viewport c d ds v (by_delta_sound viewport ds) (rw v at m)
    | inr v ↦ let (e, w, i) = by_delta_sound viewport ds (rw v at m) in (e, w, there i)
  ]

  by_delta_complete :
      (viewport : List CellRect) (ds : Dict Cell Bytes) (c : Cell)
      → covers viewport c ≡ true
      → In (c, b) ds
      → In b (chunks_by_delta viewport ds)
  unfolding chunks_by_delta
  by_delta_complete viewport [] c v i = elim i [ ]
  by_delta_complete viewport (_ ∷ ds) c v here = rw v here
  by_delta_complete viewport ((e, d) ∷ ds) c v (there i) = elim (Bool-cases (covers viewport e)) [
    | inl w ↦ rw w (there (by_delta_complete viewport ds c v i))
    | inr w ↦ rw w (by_delta_complete viewport ds c v i)
  ]

-- Whichever side of the join is the smaller, the chunks that a client is offered are those that
-- the delta holds at the cells its viewport covers, for a delta with one chunk for a cell.
pub visible_chunks_iff :
    {fl : Floats} (c : Connection fl) (delta : TickDelta) (viewport : List CellRect) (b : Bytes)
    → Distinct same_cell delta.chunks
    → In b (visible_chunks c delta viewport) ↔ Picks viewport delta.chunks b
unfolding visible_chunks
visible_chunks_iff c delta viewport b once =
    elim (Bool-cases (leb_ℤ c.viewport_cells (pos (length delta.chunks)))) [
      | inl small ↦
          rw small (by_cell_sound delta.chunks b viewport, by_cell_complete delta.chunks b viewport)
      | inr big ↦ rw big (
        λ m.
            let (e, w, i) = by_delta_sound delta.chunks b viewport delta.chunks m in
            (e, w, get-In same_cell e b delta.chunks once i),
        λ p.
            by_delta_complete delta.chunks b viewport delta.chunks p.0 p.1
              (In-get same_cell p.0 b delta.chunks p.2),
      )
    ]

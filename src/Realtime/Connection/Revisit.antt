-- ===== src/Realtime/Connection/Revisit.antt =====
-- A device that crosses a hidden cell between two ticks.
use geotrack.Prelude.{◌≡◌, ◌≢◌, ◌∙◌, refl, ap, List, Bool, true, false, some, arith, if_neg}
use geotrack.Prelude.Int.{leb_ℤ}
use geotrack.Prelude.Index.{member}
use geotrack.Prelude.Text.{String-discrete as same_id}
use geotrack.Float.{Floats}
use geotrack.Realtime.Grid.{Cell, CellRect, covers, Cell-discrete as same_cell}
use geotrack.Realtime.Hub.{Hub, Entry, PositionItem, apply_item, enter, leave, cell_at}
use geotrack.Realtime.Hub.Writes.{known, left}
use geotrack.Realtime.Hub.Picture.{IsConsistent, move-view, move-IsConsistent}
use geotrack.Realtime.Connection.Told.{carried}
use geotrack.Realtime.Connection.Removed.{removed_now, Removes-member}

module _ {fl : Floats} where
  moves_on :
      (item : PositionItem fl) (g : Hub fl) (x : Entry fl)
      → known g item.device_id ≡ some x
      → leb_ℤ item.reported_ms x.item.reported_ms ≡ false
      → x.cell ≢ cell_at fl g item
      → (apply_item fl item g).0
        ≡ enter fl
            (cell_at fl g item)
            item
            (leave fl x.cell item.device_id (some (cell_at fl g item)) g)
  unfolding apply_item
  moves_on item g x old newer far =
      let to = cell_at fl g item in
      let stay : Hub fl × Bool = (enter fl to item g, true) in
      let move : Hub fl × Bool =
        (enter fl to item (leave fl x.cell item.device_id (some to) g), true) in
      rw (old, apply_item, newer) (rw (if_neg (same_cell x.cell to) far stay move))

  cell_at-move :
      (cell from : Cell) (item other : PositionItem fl) (g : Hub fl)
      → cell_at fl (enter fl cell item (leave fl from item.device_id (some cell) g)) other
        ≡ cell_at fl g other
  unfolding enter leave cell_at
  cell_at-move cell from item other g = refl

  -- A device in a covered cell reports twice between two ticks, each time newer than before:
  -- first from a cell that the viewport does not cover, then from a covered one other than the
  -- first. The frame of the tick then carries the device's item and lists it as removed.
  pub revisit_carried_and_removed :
      (rects : List CellRect) (h : Hub fl) (e : Entry fl) (first second : PositionItem fl)
      → IsConsistent h
      → known h first.device_id ≡ some e
      → second.device_id ≡ first.device_id
      → leb_ℤ first.reported_ms e.item.reported_ms ≡ false
      → leb_ℤ second.reported_ms first.reported_ms ≡ false
      → covers rects e.cell ≡ true
      → covers rects (cell_at fl h first) ≡ false
      → covers rects (cell_at fl h second) ≡ true
      → e.cell ≢ cell_at fl h second
      → let h' = (apply_item fl second (apply_item fl first h).0).0 in
        (carried rects h' first.device_id (known h' first.device_id) ≡ true)
        × (member same_id first.device_id (removed_now rects h' first.device_id) ≡ true)
  revisit_carried_and_removed rects h e first second v old same newer newest start away back apart =
      let id = first.device_id in
      let out = cell_at fl h first in
      let home = cell_at fl h second in
      let h1 = enter fl out first (leave fl e.cell id (some out) h) in
      let x1 : Entry fl = record { item = first; cell = out } in
      let far : e.cell ≢ out = λ p. ground (arith, ap (covers rects) p) in
      let far' : out ≢ home = λ p. ground (arith, ap (covers rects) p) in
      let shows = move-view first h v e old far in
      let there : cell_at fl h1 second ≡ home = cell_at-move out e.cell first second h in
      let known1 : known h1 second.device_id ≡ some x1 =
        ground (arith, shows out second.device_id) in
      let far1 : out ≢ cell_at fl h1 second = λ p. far' (p ∙ there) in
      let v1 = move-IsConsistent first h v e old far in
      let shows1 = move-view second h1 v1 x1 known1 far1 in
      let h2 =
        enter fl (cell_at fl h1 second) second
          (leave fl out second.device_id (some (cell_at fl h1 second)) h1) in
      let carries : carried rects h2 id (known h2 id) ≡ true =
        ground (arith, shows1 (cell_at fl h1 second) id, there) in
      let lefts : left h2 e.cell id ≡ some (some out) =
        ground (arith, shows1 e.cell id, shows e.cell id, there) in
      let removes = Removes-member rects h2 id (e.cell, some out, start, lefts, ground arith) in
      rw (moves_on first h e old newer far)
        (rw (moves_on second h1 x1 known1 newest far1) (carries, removes))

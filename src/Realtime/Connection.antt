-- ===== src/Realtime/Connection.antt =====
-- src/geotrack/realtime/connection.py: `ClientConnection`, what one browser receives next. The
-- proofs are in the modules below.
pub mod Told
pub mod Removed
pub mod Convergence
pub mod Revisit
pub mod Bounds
pub mod Chunks
pub mod Sender
use Prim.Native.String.{String}
use geotrack.Prelude.{
  ℕ, ◌+◌, Bool, true, false, ◌||◌, List, [], ◌∷◌, ◌++◌, Option, none, some, if◌then◌else◌, leb,
  length,
}
use geotrack.Prelude.Int.{ℤ, pos, leb_ℤ, ◌+ℤ◌, ◌-ℤ◌, ◌*ℤ◌, range}
use geotrack.Prelude.Dict.{Dict, get}
use geotrack.Prelude.Result.{Result, ok, raise}
use geotrack.Prelude.Text.{Bytes}
use geotrack.Float.{Floats}
use geotrack.Geo.{BBox, BBoxError}
use geotrack.Realtime.Grid.{Cell, Cell-discrete, CellRect, covers, rects_for}
use geotrack.Realtime.Hub.{Hub, DeviceId, Departure, TickDelta, snapshot_chunks}
use geotrack.Realtime.Protocol.{Wire, positions_frame, close_slow_consumer}

pub record Connection (fl : Floats) : Type 0 where
  pub close_code : ℕ
  pub close_reason : String
  pub cell_size_deg : fl.F
  pub control_max : ℕ
  pub control : List Bytes
  pub wake : Bool
  pub viewport : Option (List CellRect)
  pub viewport_cells : ℤ
  pub pending_delta : Option Bytes
  pub needs_snapshot : Bool
  pub closing : Bool
  pub writable : Bool
  -- `ws_position_frames_dropped_total` and `ws_slow_consumer_disconnects_total`, as this
  -- connection counts in them
  pub frames_dropped : ℕ
  pub slow_disconnects : ℕ

unfoldable pub rect_cells : List CellRect → ℤ
unfolding ◌+ℤ◌ ◌-ℤ◌ ◌*ℤ◌
rect_cells [] = pos 0
rect_cells (r ∷ rects) =
    ((r.max_x -ℤ r.min_x +ℤ pos 1) *ℤ (r.max_y -ℤ r.min_y +ℤ pos 1)) +ℤ rect_cells rects

-- `delta.chunks.get((x, y))` for the cells of a row, of a rectangle, of a viewport
unfoldable pub chunks_in_column : Dict Cell Bytes → ℤ → List ℤ → List Bytes
chunks_in_column chunks x [] = []
chunks_in_column chunks x (y ∷ ys) =
    let rest = chunks_in_column chunks x ys in
    elim (get Cell-discrete (x, y) chunks) [ none ↦ rest | some chunk ↦ chunk ∷ rest ]

unfoldable pub chunks_in_columns : Dict Cell Bytes → List ℤ → List ℤ → List Bytes
unfolding chunks_in_column
chunks_in_columns chunks [] ys = []
chunks_in_columns chunks (x ∷ xs) ys =
    chunks_in_column chunks x ys ++ chunks_in_columns chunks xs ys

unfoldable pub chunks_by_cell : Dict Cell Bytes → List CellRect → List Bytes
unfolding chunks_in_columns range
chunks_by_cell chunks [] = []
chunks_by_cell chunks (r ∷ rects) =
    chunks_in_columns chunks (range r.min_x (r.max_x +ℤ pos 1)) (range r.min_y (r.max_y +ℤ pos 1))
    ++ chunks_by_cell chunks rects

-- `[chunk for cell, chunk in delta.chunks.items() if covers(viewport, cell)]`
unfoldable pub chunks_by_delta : List CellRect → Dict Cell Bytes → List Bytes
chunks_by_delta viewport [] = []
chunks_by_delta viewport ((cell, chunk) ∷ chunks) =
    let rest = chunks_by_delta viewport chunks in
    if covers viewport cell then chunk ∷ rest else rest

-- whether a viewport has no view of where a departed device went
abbrev pub hidden : List CellRect → Option Cell → Bool
hidden viewport none = true
hidden viewport (some c) = if covers viewport c then false else true

unfoldable pub removed_from : List CellRect → List Departure → List DeviceId
removed_from viewport [] = []
removed_from viewport (departure ∷ departures) =
    let rest = removed_from viewport departures in
    if hidden viewport departure.moved_to then departure.device_id ∷ rest else rest

-- the comprehension that builds `removed`
unfoldable pub removed_ids : List CellRect → Dict Cell (List Departure) → List DeviceId
unfolding removed_from
removed_ids viewport [] = []
removed_ids viewport ((cell, departures) ∷ rest) =
    if covers viewport cell
    then removed_from viewport departures ++ removed_ids viewport rest
    else removed_ids viewport rest

-- `not chunks and not removed`
abbrev pub both_empty : List Bytes → List DeviceId → Bool
both_empty [] [] = true
both_empty _ _ = false

module _ {fl : Floats} where
  unfoldable pub open_connection : fl.F → ℕ → Connection fl
  open_connection cell_size_deg control_queue_max = record {
    close_code = 1000;
    close_reason = "";
    cell_size_deg = cell_size_deg;
    control_max = control_queue_max;
    control = [];
    wake = false;
    viewport = none;
    viewport_cells = pos 0;
    pending_delta = none;
    needs_snapshot = false;
    closing = false;
    writable = true;
    frames_dropped = 0;
    slow_disconnects = 0;
  }

  unfoldable pub wants_positions : Connection fl → Bool
  wants_positions c = elim c.viewport [ none ↦ false | some _ ↦ if c.closing then false else true ]

  unfoldable pub visible_chunks : Connection fl → TickDelta → List CellRect → List Bytes
  unfolding chunks_by_cell chunks_by_delta
  visible_chunks c delta viewport =
      if leb_ℤ c.viewport_cells (pos (length delta.chunks))
      then chunks_by_cell delta.chunks viewport
      else chunks_by_delta viewport delta.chunks

  unfoldable pub set_viewport : BBox fl → Connection fl → Result BBoxError (Connection fl)
  unfolding rects_for rect_cells
  set_viewport bbox c = elim (rects_for fl bbox c.cell_size_deg) [
    | raise e ↦ raise e
    | ok rects ↦ ok (record c {
      viewport = some rects;
      viewport_cells = rect_cells rects;
      pending_delta = none;
      needs_snapshot = true;
      wake = true;
    })
  ]

  unfoldable pub request_close : ℕ → String → Connection fl → Connection fl
  request_close code reason c = if c.closing then c else record c {
    closing = true;
    close_code = code;
    close_reason = reason;
    control = [];
    pending_delta = none;
    needs_snapshot = false;
    wake = true;
  }

  unfoldable pub send_control : Bytes → Connection fl → Connection fl
  unfolding request_close
  send_control frame c =
      if c.closing
      then c
      else if leb c.control_max (length c.control)
      then request_close close_slow_consumer "client is not keeping up"
          (record c { slow_disconnects = c.slow_disconnects + 1 })
      else record c { control = c.control ++ frame ∷ []; wake = true }

  module _ (w : Wire fl) where
    -- `offer_positions` past its first return, for the client's viewport
    unfoldable pub offer_visible : TickDelta → List CellRect → Connection fl → Connection fl
    unfolding positions_frame visible_chunks removed_ids
    offer_visible delta viewport c =
        let chunks = visible_chunks c delta viewport in
        let removed = removed_ids viewport delta.departures in
        if both_empty chunks removed then c else elim c.pending_delta [
          | none ↦ record c {
            pending_delta = some (positions_frame w false delta.t_ms chunks removed);
            wake = true;
          }
          | some _ ↦ record c {
            pending_delta = none;
            needs_snapshot = true;
            frames_dropped = c.frames_dropped + 1;
            wake = true;
          }
        ]

    unfoldable pub offer_positions : TickDelta → Connection fl → Connection fl
    unfolding offer_visible
    offer_positions delta c = elim c.viewport [
      | none ↦ c
      | some viewport ↦ if c.closing || c.needs_snapshot then c else offer_visible delta viewport c
    ]

    -- `_next_frame`, at the time `now_ms`: the frame if there is one, with the hub's cache as the
    -- snapshot leaves it, or `none` for a `KeyError` of the snapshot.
    unfoldable pub next_delta : Hub fl → Connection fl → Option Bytes × Connection fl × Hub fl
    next_delta h c = (c.pending_delta, record c { pending_delta = none }, h)

    unfoldable pub next_snapshot :
        ℤ → Hub fl → List CellRect → Connection fl → Option (Option Bytes × Connection fl × Hub fl)
    next_snapshot now_ms h viewport c = elim (snapshot_chunks fl w.encode viewport h) [
      | none ↦ none
      | some (h', chunks) ↦
          some (
            some (positions_frame w true now_ms chunks []),
            record c { needs_snapshot = false },
            h',
          )
    ]

    unfoldable pub next_positions :
        ℤ
        → Hub fl
        → Option (List CellRect)
        → Connection fl
        → Option (Option Bytes × Connection fl × Hub fl)
    unfolding next_snapshot next_delta
    next_positions now_ms h none c = some (next_delta h c)
    next_positions now_ms h (some viewport) c =
        if c.needs_snapshot then next_snapshot now_ms h viewport c else some (next_delta h c)

    unfoldable pub next_frame :
        ℤ → Hub fl → Connection fl → Option (Option Bytes × Connection fl × Hub fl)
    unfolding next_positions
    next_frame now_ms h c = elim c.control [
      | [] ↦ next_positions now_ms h c.viewport c
      | frame ∷ rest ↦ some (some frame, record c { control = rest }, h)
    ]

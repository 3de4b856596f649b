-- ===== src/Realtime/Hub.antt =====
-- src/geotrack/realtime/hub.py: `PositionHub`, where every device is right now and what changed
-- since the last tick. The proofs are in the modules below.
pub mod Writes
pub mod Picture
pub mod Indexed
pub mod Drain
use Prim.Native.String.{String}
use geotrack.Prelude.{
  ℕ, suc, ◌+◌, ◌*◌, Bool, true, false, List, [], ◌∷◌, Option, none, some, ite, if◌then◌else◌, map,
  length,
}
use geotrack.Prelude.Int.{ℤ, pos, leb_ℤ, ltb_ℤ, ◌-ℤ◌}
use geotrack.Prelude.Dict.{Dict, get, put, pop}
use geotrack.Prelude.Index.{add_at, discard_at, discard_or_drop, put_at, pop_at}
use geotrack.Prelude.Text.{Bytes, join, String-discrete}
use geotrack.Float.{Floats}
use geotrack.Realtime.Grid.{Cell, Cell-discrete, CellRect, covers, cell_of}

abbrev pub DeviceId : Type 0
DeviceId = String

-- `PositionItem` of src/geotrack/messaging/codec.py
pub record PositionItem (fl : Floats) : Type 0 where
  pub device_id : DeviceId
  pub lat : fl.F
  pub lon : fl.F
  pub reported_ms : ℤ

-- `_Entry`
pub record Entry (fl : Floats) : Type 0 where
  pub item : PositionItem fl
  pub cell : Cell

pub record Departure : Type 0 where
  pub device_id : DeviceId
  pub moved_to : Option Cell

pub record TickDelta : Type 0 where
  pub t_ms : ℤ
  pub chunks : Dict Cell Bytes
  pub departures : Dict Cell (List Departure)

-- `_Pending`
pub record Pending : Type 0 where
  pub changed : Dict Cell (List DeviceId)
  pub departed : Dict Cell (Dict DeviceId (Option Cell))

pub record Hub (fl : Floats) : Type 0 where
  pub cell_size_deg : fl.F
  pub stale_after_ms : ℤ
  pub latest : Dict DeviceId (Entry fl)
  pub cells : Dict Cell (List DeviceId)
  pub pending : Pending
  pub open pending use *
  pub snapshots : Dict Cell Bytes
  pub updates : ℕ

abbrev pub nothing_pending : Pending
nothing_pending = record { changed = []; departed = [] }

abbrev pub departure : DeviceId × Option Cell → Departure
departure (d, moved_to) = record { device_id = d; moved_to = moved_to }

unfoldable pub departures_of : Dict Cell (Dict DeviceId (Option Cell)) → Dict Cell (List Departure)
departures_of [] = []
departures_of ((cell, []) ∷ departed) = departures_of departed
departures_of ((cell, move ∷ moves) ∷ departed) =
    (cell, map departure (move ∷ moves)) ∷ departures_of departed

module _ (fl : Floats) where
  unfoldable pub init : fl.F → ℕ → Hub fl
  init cell_size_deg stale_after_s = record {
    cell_size_deg = cell_size_deg;
    stale_after_ms = pos (stale_after_s * 1_000);
    latest = [];
    cells = [];
    pending = nothing_pending;
    snapshots = [];
    updates = 0;
  }

  -- `_touch`
  unfoldable pub touch : Cell → DeviceId → Hub fl → Hub fl
  touch cell device_id h = record h {
    pending = record {
      changed = add_at Cell-discrete String-discrete cell device_id h.changed;
      departed = pop_at Cell-discrete String-discrete cell device_id h.departed;
    };
    snapshots = pop Cell-discrete cell h.snapshots;
  }

  -- `_leave`
  unfoldable pub leave : Cell → DeviceId → Option Cell → Hub fl → Hub fl
  leave cell device_id moved_to h = record h {
    cells = discard_or_drop Cell-discrete String-discrete cell device_id h.cells;
    pending = record {
      changed = discard_at Cell-discrete String-discrete cell device_id h.changed;
      departed = put_at Cell-discrete String-discrete cell device_id moved_to h.departed;
    };
    snapshots = pop Cell-discrete cell h.snapshots;
  }

  -- the writes of `apply` for a report that is accepted, from `entry is None` on
  unfoldable pub enter : Cell → PositionItem fl → Hub fl → Hub fl
  unfolding touch
  enter cell item h = touch cell item.device_id (record h {
    latest = put String-discrete item.device_id (record { item = item; cell = cell }) h.latest;
    cells = add_at Cell-discrete String-discrete cell item.device_id h.cells;
  })

  unfoldable pub cell_at : Hub fl → PositionItem fl → Cell
  cell_at h item = cell_of fl item.lat item.lon h.cell_size_deg

  -- One round of the loop of `apply`: the hub, and whether the report counts as applied.
  unfoldable pub apply_item : PositionItem fl → Hub fl → Hub fl × Bool
  unfolding enter leave cell_at
  apply_item item h = elim (get String-discrete item.device_id h.latest) [
    | none ↦ (enter (cell_at h item) item h, true)
    | some entry ↦
        if leb_ℤ item.reported_ms entry.item.reported_ms
        then (h, false)
        else ite (Cell-discrete entry.cell (cell_at h item)) (enter (cell_at h item) item h, true)
            (
              enter (cell_at h item) item
                  (leave entry.cell item.device_id (some (cell_at h item)) h),
              true,
            )
  ]

  -- the loop of `apply`, with the count of the reports applied
  unfoldable pub apply_items : List (PositionItem fl) → Hub fl → ℕ → Hub fl × ℕ
  unfolding apply_item
  apply_items [] h applied = (h, applied)
  apply_items (item ∷ items) h applied =
      let (h', done) = apply_item item h in
      apply_items items h' (if done then suc applied else applied)

  unfoldable pub apply : List (PositionItem fl) → Hub fl → Hub fl
  unfolding apply_items
  apply items h =
      let (h', applied) = apply_items items h 0 in record h' { updates = h'.updates + applied }

  unfoldable pub discard_pending : Hub fl → Hub fl
  discard_pending h = record h { pending = nothing_pending }

  -- One round of the loop of `sweep`: `latest.pop(device)`, then `_leave` with its cell.
  unfoldable pub forget : DeviceId → Hub fl → Hub fl
  unfolding leave
  forget device h = elim (get String-discrete device h.latest) [
    | none ↦ h
    | some entry ↦
        leave entry.cell device none (record h { latest = pop String-discrete device h.latest })
  ]

  unfoldable pub forget_all : List DeviceId → Hub fl → Hub fl
  unfolding forget
  forget_all [] h = h
  forget_all (device ∷ devices) h = forget_all devices (forget device h)

  -- the devices whose last report is before the cutoff
  unfoldable pub stale_devices : ℤ → Dict DeviceId (Entry fl) → List DeviceId
  stale_devices cutoff [] = []
  stale_devices cutoff ((device, entry) ∷ latest) =
      let rest = stale_devices cutoff latest in
      if ltb_ℤ entry.item.reported_ms cutoff then device ∷ rest else rest

  unfoldable pub sweep : ℤ → Hub fl → Hub fl
  unfolding forget_all stale_devices ◌-ℤ◌
  sweep now h = forget_all (stale_devices (now -ℤ h.stale_after_ms) h.latest) h

  -- `encode` is `encode_position_item`: orjson's bytes for one item.
  module _ (encode : PositionItem fl → Bytes) where
    -- `encode(self._latest[d].item) for d in devices`; `none` is the `KeyError`
    unfoldable pub encode_devices : Dict DeviceId (Entry fl) → List DeviceId → Option (List Bytes)
    encode_devices latest [] = some []
    encode_devices latest (d ∷ devices) = elim (get String-discrete d latest) [
      | none ↦ none
      | some entry ↦ elim (encode_devices latest devices) [
        | none ↦ none
        | some rest ↦ some (encode entry.item ∷ rest)
      ]
    ]

    unfoldable pub chunk_of : Dict DeviceId (Entry fl) → List DeviceId → Option Bytes
    unfolding encode_devices join
    chunk_of latest devices = elim (encode_devices latest devices) [
      | none ↦ none
      | some parts ↦ some (join (b',' ∷ []) parts)
    ]

    -- the dict of chunks that `drain` builds, without the cells where no device is left
    unfoldable pub chunks_of :
        Dict DeviceId (Entry fl) → Dict Cell (List DeviceId) → Option (Dict Cell Bytes)
    unfolding chunk_of
    chunks_of latest [] = some []
    chunks_of latest ((cell, []) ∷ changed) = chunks_of latest changed
    chunks_of latest ((cell, d ∷ devices) ∷ changed) = elim (chunk_of latest (d ∷ devices)) [
      | none ↦ none
      | some chunk ↦ elim (chunks_of latest changed) [
        | none ↦ none
        | some rest ↦ some ((cell, chunk) ∷ rest)
      ]
    ]

  -- `drain`: the delta and the hub with nothing pending, or `none` for a `KeyError`
  unfoldable pub drain : (PositionItem fl → Bytes) → ℤ → Hub fl → Option (TickDelta × Hub fl)
  unfolding chunks_of departures_of
  drain encode t_ms h = elim (chunks_of encode h.latest h.changed) [
    | none ↦ none
    | some chunks ↦ some (
      record { t_ms = t_ms; chunks = chunks; departures = departures_of h.departed },
      record h { pending = nothing_pending },
    )
  ]

  module _ (encode : PositionItem fl → Bytes) (rects : List CellRect) where
    -- `snapshot_chunks` consumed eagerly over the cells given: the hub with its cache, and the
    -- chunks, or `none` for a `KeyError`.
    unfoldable pub snapshot_cells :
        Dict Cell (List DeviceId) → Hub fl → Option (Hub fl × List Bytes)
    snapshot_cells [] h = some (h, [])
    snapshot_cells ((cell, devices) ∷ cells) h = elim (covers rects cell) [
      | false ↦ snapshot_cells cells h
      | true ↦ elim (get Cell-discrete cell h.snapshots) [
        | some chunk ↦ elim (snapshot_cells cells h) [
          | none ↦ none
          | some (h', chunks) ↦ some (h', chunk ∷ chunks)
        ]
        | none ↦ elim (chunk_of encode h.latest devices) [
          | none ↦ none
          | some chunk ↦
              elim (snapshot_cells cells
                (record h { snapshots = put Cell-discrete cell chunk h.snapshots })) [
                  | none ↦ none
                  | some (h', chunks) ↦ some (h', chunk ∷ chunks)
                ]
        ]
      ]
    ]

    unfoldable pub snapshot_chunks : Hub fl → Option (Hub fl × List Bytes)
    unfolding snapshot_cells
    snapshot_chunks h = snapshot_cells h.cells h

  -- `warm_start` over the partitions of the query's rows
  unfoldable pub load : List (List (PositionItem fl)) → Hub fl → ℕ → Hub fl × ℕ
  unfolding apply
  load [] h loaded = (h, loaded)
  load (rows ∷ partitions) h loaded = load partitions (apply rows h) (loaded + length rows)

  unfoldable pub warm_start : List (List (PositionItem fl)) → Hub fl → Hub fl × ℕ
  unfolding load
  warm_start partitions h =
      let (h', loaded) = load partitions h 0 in (record h' { pending = nothing_pending }, loaded)

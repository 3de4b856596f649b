-- ===== src/Realtime/Connection/Removed.antt =====
-- The devices that an incremental frame removes are those that left the viewport.
use geotrack.Prelude.{
  ◌≡◌, true, List, [], ◌∷◌, map, Option, some, arith, inl, inr, In, here, there, Bool-cases,
  Option-cases,
}
use geotrack.Prelude.Dict.{Dict, get, In-get, get-In, Stores-get}
use geotrack.Prelude.Index.{member, member-append, at}
use geotrack.Prelude.Text.{String-discrete as same_id}
use geotrack.Float.{Floats}
use geotrack.Realtime.Grid.{Cell, CellRect, covers, Cell-discrete as same_cell}
use geotrack.Realtime.Hub.{Hub, DeviceId, departure, departures_of}
use geotrack.Realtime.Hub.Indexed.{Moves, IsMoves, IsIndexed}
use geotrack.Realtime.Connection.{hidden, removed_from, removed_ids}
use geotrack.Realtime.Connection.Told.{Removes}

-- An iteration over the departures passes a covered cell that the device left for a hidden one.
abbrev pub Passes : List CellRect → DeviceId → Dict Cell Moves → Type 0
Passes rects d departed =
    (c : Cell) × (moves : Moves) × (m : Option Cell) × In (c, moves) departed
    × In (d, m) moves
    × (covers rects c ≡ true)
    × (hidden rects m ≡ true)

module _ (rects : List CellRect) (d : DeviceId) where
  removed_from_sound :
      (moves : Moves)
      → member same_id d (removed_from rects (map departure moves)) ≡ true
      → (m : Option Cell) × In (d, m) moves × (hidden rects m ≡ true)
  unfolding removed_from member
  removed_from_sound [] h = cc
  removed_from_sound ((j, m) ∷ moves) h = elim (Bool-cases (hidden rects m)) [
    | inl gone ↦ elim (same_id j d) [
      | yes p ↦ (m, rw p here, gone)
      | no p ↦ let (n, i, g) = removed_from_sound moves (ground arith) in (n, there i, g)
    ]
    | inr seen ↦ let (n, i, g) = removed_from_sound moves (ground arith) in (n, there i, g)
  ]

  removed_from_complete :
      (moves : Moves) (m : Option Cell)
      → In (d, m) moves
      → hidden rects m ≡ true
      → member same_id d (removed_from rects (map departure moves)) ≡ true
  unfolding removed_from member
  removed_from_complete [] m i h = elim i [ ]
  removed_from_complete ((j, n) ∷ moves) m here h = ground arith
  removed_from_complete ((j, n) ∷ moves) m (there i) h =
      ground (arith, removed_from_complete moves m i h)

  removed_ids_sound :
      (departed : Dict Cell Moves)
      → member same_id d (removed_ids rects (departures_of departed)) ≡ true
      → Passes rects d departed
  unfolding removed_ids departures_of member
  removed_ids_sound [] h = cc
  removed_ids_sound ((c, []) ∷ departed) h =
      let (e, moves, m, i, j, v, u) = removed_ids_sound departed h in
      (e, moves, m, there i, j, v, u)
  removed_ids_sound ((c, move ∷ moves) ∷ departed) h = elim (Bool-cases (covers rects c)) [
    | inr unseen ↦
        let (e, ms, m, i, j, v, u) = removed_ids_sound departed (ground arith) in
        (e, ms, m, there i, j, v, u)
    | inl seen ↦
        let first = removed_from rects (map departure (move ∷ moves)) in
        let split = member-append same_id d first (removed_ids rects (departures_of departed)) in
        elim (Bool-cases (member same_id d first)) [
          | inl found ↦
              let (m, j, u) = removed_from_sound (move ∷ moves) found in
              (c, move ∷ moves, m, here, j, seen, u)
          | inr absent ↦
              let (e, ms, m, i, j, v, u) = removed_ids_sound departed (ground (arith, split)) in
              (e, ms, m, there i, j, v, u)
        ]
  ]

  removed_ids_complete :
      (departed : Dict Cell Moves)
      → Passes rects d departed
      → member same_id d (removed_ids rects (departures_of departed)) ≡ true
  unfolding removed_ids departures_of
  removed_ids_complete [] (c, ms, m, i, j, v, u) = elim i [ ]
  removed_ids_complete ((c, []) ∷ departed) (_, ms, m, here, j, v, u) = elim j [ ]
  removed_ids_complete ((c, []) ∷ departed) (e, ms, m, there i, j, v, u) =
      removed_ids_complete departed (e, ms, m, i, j, v, u)
  removed_ids_complete ((c, move ∷ moves) ∷ departed) (_, ms, m, here, j, v, u) = ground (
    arith,
    member-append same_id d (removed_from rects (map departure (move ∷ moves)))
        (removed_ids rects (departures_of departed)),
    removed_from_complete (move ∷ moves) m j u,
  )
  removed_ids_complete ((c, move ∷ moves) ∷ departed) (e, ms, m, there i, j, v, u) = ground (
    arith,
    member-append same_id d (removed_from rects (map departure (move ∷ moves)))
        (removed_ids rects (departures_of departed)),
    removed_ids_complete departed (e, ms, m, i, j, v, u),
  )

module _ {fl : Floats} (rects : List CellRect) (h : Hub fl) (d : DeviceId) where
  -- the departures that a drain of `h` reports
  abbrev pub removed_now : List DeviceId
  removed_now = removed_ids rects (departures_of h.departed)

  pub Removes-member : Removes rects h d → member same_id d removed_now ≡ true
  unfolding at
  Removes-member (c, m, v, l, u) = elim (Option-cases (get same_cell c h.departed)) [
    | inl e ↦ absurd (ground arith)
    | inr (moves, e) ↦
        let found : get same_id d moves ≡ some m = ground arith in
        removed_ids_complete rects d h.departed
          (c, moves, m, In-get same_cell c moves h.departed e, In-get same_id d m moves found, v, u)
  ]

  pub member-Removes : IsIndexed h → member same_id d removed_now ≡ true → Removes rects h d
  unfolding at
  member-Removes w found =
      let (c, moves, m, i, j, v, u) = removed_ids_sound rects d h.departed found in
      let outer = get-In same_cell c moves h.departed w.cells_once i in
      let inner =
        get-In same_id d m moves
          (Stores-get same_cell IsMoves c moves h.departed w.devices_once outer) j in
      (c, m, v, rw (outer, at) inner, u)

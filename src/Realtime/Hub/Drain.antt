-- ===== src/Realtime/Hub/Drain.antt =====
-- A drain finds the entry of every device that it writes.
use geotrack.Prelude.{
  ◌≡◌, refl, true, List, [], ◌∷◌, map, none, some, arith, inl, inr, In, here, there, Option-cases,
  if_pos,
}
use geotrack.Prelude.Int.{ℤ}
use geotrack.Prelude.Dict.{Dict, get, get-In}
use geotrack.Prelude.Index.{member, has}
use geotrack.Prelude.Text.{Bytes, join, String-discrete as same_id}
use geotrack.Float.{Floats}
use geotrack.Realtime.Grid.{Cell, Cell-discrete as same_cell}
use geotrack.Realtime.Hub.{
  Hub, Entry, PositionItem, DeviceId, encode_devices, chunk_of, chunks_of, departures_of, drain,
  nothing_pending,
}
use geotrack.Realtime.Hub.Writes.{known}
use geotrack.Realtime.Hub.Picture.{IsConsistent}
use geotrack.Realtime.Hub.Indexed.{IsIndexed}

module _ {fl : Floats} (encode : PositionItem fl → Bytes) where
  -- the present items of some devices
  pub items_of : Dict DeviceId (Entry fl) → List DeviceId → List (PositionItem fl)
  items_of latest [] = []
  items_of latest (d ∷ devices) =
      let rest = items_of latest devices in
      elim (get same_id d latest) [ none ↦ rest | some e ↦ e.item ∷ rest ]

  abbrev Knows : Dict DeviceId (Entry fl) → List DeviceId → Type 0
  Knows latest devices =
      (d : DeviceId)
      → member same_id d devices ≡ true
      → (e : Entry fl) × (get same_id d latest ≡ some e)

  encode_devices-total :
      (latest : Dict DeviceId (Entry fl)) (devices : List DeviceId)
      → Knows latest devices
      → encode_devices fl encode latest devices ≡ some (map encode (items_of latest devices))
  unfolding encode_devices items_of member
  encode_devices-total latest [] k = refl
  encode_devices-total latest (d ∷ devices) k =
      let (e, known) = k d (if_pos (same_id d d) refl true (member same_id d devices)) in
      let rest = encode_devices-total latest devices (λ j m. k j (ground arith)) in ground arith

  -- the chunks of the cells where something changed: the present items, joined by commas
  pub rendered : Dict DeviceId (Entry fl) → Dict Cell (List DeviceId) → Dict Cell Bytes
  rendered latest [] = []
  rendered latest ((c, []) ∷ changed) = rendered latest changed
  rendered latest ((c, d ∷ devices) ∷ changed) =
      (c, join (b',' ∷ []) (map encode (items_of latest (d ∷ devices)))) ∷ rendered latest changed

  chunks_of-total :
      (latest : Dict DeviceId (Entry fl)) (changed : Dict Cell (List DeviceId))
      → ((c : Cell) (devices : List DeviceId) → In (c, devices) changed → Knows latest devices)
      → chunks_of fl encode latest changed ≡ some (rendered latest changed)
  unfolding chunks_of chunk_of rendered
  chunks_of-total latest [] k = refl
  chunks_of-total latest ((c, []) ∷ changed) k =
      chunks_of-total latest changed (λ e ds i. k e ds (there i))
  chunks_of-total latest ((c, d ∷ devices) ∷ changed) k =
      let rest = chunks_of-total latest changed (λ e ds i. k e ds (there i)) in
      let first = encode_devices-total latest (d ∷ devices) (k c (d ∷ devices) here) in
      ground (arith, first, rest)

  changed-Knows :
      (h : Hub fl)
      → IsConsistent h
      → IsIndexed h
      → (c : Cell) (devices : List DeviceId) → In (c, devices) h.changed
      → Knows h.latest devices
  changed-Knows h v w c devices i d m =
      let found = get-In same_cell c devices h.changed w.changed_once i in
      elim (Option-cases (known h d)) [
        | inl n ↦ absurd (unfold has in ground (arith, v.current c d))
        | inr (e, o) ↦ (e, o)
      ]

  -- No drain of a sound hub raises a `KeyError`: it reports, for each cell where something
  -- changed, the present items of the devices that changed there, with every departure, and
  -- leaves nothing pending.
  pub drain-total :
      (t_ms : ℤ) (h : Hub fl)
      → IsConsistent h
      → IsIndexed h
      → drain fl encode t_ms h
        ≡ some (
          record {
            t_ms = t_ms;
            chunks = rendered h.latest h.changed;
            departures = departures_of h.departed;
          },
          record h { pending = nothing_pending },
        )
  unfolding drain
  drain-total t_ms h v w = rw (chunks_of-total h.latest h.changed (changed-Knows h v w), drain)

-- ===== src/Realtime/Hub/Indexed.antt =====
-- The dicts of what is pending have one entry for a key, at both levels.
use geotrack.Prelude.{◌≡◌, refl, List, Option, none, some, inl, inr, Option-cases}
use geotrack.Prelude.Dict.{
  Dict, get, pop, Distinct, Distinct-put, Distinct-pop, Stores, Stores-put, Stores-get,
}
use geotrack.Prelude.Index.{put_at, pop_at, add_at, discard_at, or_empty_dict}
use geotrack.Prelude.Text.{String-discrete as same_id}
use geotrack.Float.{Floats}
use geotrack.Realtime.Grid.{Cell, Cell-discrete as same_cell}
use geotrack.Realtime.Hub.{
  Hub, PositionItem, DeviceId, apply_item, enter, leave, forget, nothing_pending,
}
use geotrack.Realtime.Hub.Writes.{known, apply_item_cases}

abbrev pub Moves : Type 0
Moves = Dict DeviceId (Option Cell)

abbrev pub IsMoves : Moves → Type 0
IsMoves = Distinct same_id

pub record IsIndexed {fl : Floats} (h : Hub fl) : Type 0 where
  pub cells_once : Distinct same_cell h.departed
  pub devices_once : Stores same_cell IsMoves h.departed
  pub changed_once : Distinct same_cell h.changed

module _ (c : Cell) (d : DeviceId) (m : Dict Cell Moves) where
  moves_at :
      (o : Option Moves)
      → get same_cell c m ≡ o
      → Stores same_cell IsMoves m
      → IsMoves (or_empty_dict same_cell same_id o)
  moves_at none e h = tt
  moves_at (some s) e h = Stores-get same_cell IsMoves c s m h e

  put_at-once :
      (to : Option Cell)
      → Distinct same_cell m
      → Distinct same_cell (put_at same_cell same_id c d to m)
  unfolding put_at
  put_at-once to h = Distinct-put same_cell c _ m h

  put_at-IsMoves :
      (to : Option Cell)
      → Stores same_cell IsMoves m
      → Stores same_cell IsMoves (put_at same_cell same_id c d to m)
  unfolding put_at
  put_at-IsMoves to h =
      Stores-put same_cell IsMoves c _ m
        (Distinct-put same_id d to _ (moves_at (get same_cell c m) refl h)) h

  pop_at-once : Distinct same_cell m → Distinct same_cell (pop_at same_cell same_id c d m)
  unfolding pop_at
  pop_at-once h = elim (Option-cases (get same_cell c m)) [
    | inl e ↦ rw (e, pop_at) h
    | inr (s, e) ↦ rw (e, pop_at) (Distinct-put same_cell c _ m h)
  ]

  pop_at-IsMoves :
      Stores same_cell IsMoves m → Stores same_cell IsMoves (pop_at same_cell same_id c d m)
  unfolding pop_at
  pop_at-IsMoves h = elim (Option-cases (get same_cell c m)) [
    | inl e ↦ rw (e, pop_at) h
    | inr (s, e) ↦
        rw (e, pop_at)
          (Stores-put same_cell IsMoves c _ m
            (Distinct-pop same_id d s (Stores-get same_cell IsMoves c s m h e)) h)
  ]

module _ (c : Cell) (d : DeviceId) (m : Dict Cell (List DeviceId)) where
  add_at-once : Distinct same_cell m → Distinct same_cell (add_at same_cell same_id c d m)
  unfolding add_at
  add_at-once h = Distinct-put same_cell c _ m h

  discard_at-once : Distinct same_cell m → Distinct same_cell (discard_at same_cell same_id c d m)
  unfolding discard_at
  discard_at-once h = elim (Option-cases (get same_cell c m)) [
    | inl e ↦ rw (e, discard_at) h
    | inr (s, e) ↦ rw (e, discard_at) (Distinct-put same_cell c _ m h)
  ]

module _ {fl : Floats} where
  enter-IsIndexed :
      (cell : Cell) (item : PositionItem fl) (h : Hub fl)
      → IsIndexed h
      → IsIndexed (enter fl cell item h)
  unfolding enter
  enter-IsIndexed cell item h v = record {
    cells_once = pop_at-once cell item.device_id h.departed v.cells_once;
    devices_once = pop_at-IsMoves cell item.device_id h.departed v.devices_once;
    changed_once = add_at-once cell item.device_id h.changed v.changed_once;
  }

  leave-IsIndexed :
      (cell : Cell) (d : DeviceId) (to : Option Cell) (h : Hub fl)
      → IsIndexed h
      → IsIndexed (leave fl cell d to h)
  unfolding leave
  leave-IsIndexed cell d to h v = record {
    cells_once = put_at-once cell d h.departed to v.cells_once;
    devices_once = put_at-IsMoves cell d h.departed to v.devices_once;
    changed_once = discard_at-once cell d h.changed v.changed_once;
  }

  pub apply_item-IsIndexed :
      (item : PositionItem fl) (h : Hub fl) → IsIndexed h → IsIndexed (apply_item fl item h).0
  apply_item-IsIndexed item h v =
      apply_item_cases (λ r. IsIndexed r.0) item h (λ _. enter-IsIndexed _ item h v) (λ _ _ _. v)
        (λ _ _ _. enter-IsIndexed _ item h v)
        (λ e _ _. enter-IsIndexed _ item _ (leave-IsIndexed e.cell item.device_id _ h v))

  pub forget-IsIndexed : (id : DeviceId) (h : Hub fl) → IsIndexed h → IsIndexed (forget fl id h)
  unfolding forget
  forget-IsIndexed id h v = elim (Option-cases (known h id)) [
    | inl unknown ↦ rw (unknown, forget) v
    | inr (e, old) ↦
        rw (old, forget)
          (leave-IsIndexed e.cell id none (record h { latest = pop same_id id h.latest })
            (record {
              cells_once = v.cells_once;
              devices_once = v.devices_once;
              changed_once = v.changed_once;
            }))
  ]

  pub settled-IsIndexed : (h : Hub fl) → IsIndexed (record h { pending = nothing_pending })
  settled-IsIndexed h = record { cells_once = tt; devices_once = tt; changed_once = tt }

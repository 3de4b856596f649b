-- ===== src/Realtime/Hub/Writes.antt =====
-- What the writers of `PositionHub` leave behind, one equation for each container.
use geotrack.Prelude.{
  ◌≡◌, ◌≢◌, refl, Bool, true, false, Option, none, some, ite, if_pos, if_neg, inl, inr, Bool-cases,
  Option-cases,
}
use geotrack.Prelude.Int.{leb_ℤ}
use geotrack.Prelude.Dict.{get, get-put}
use geotrack.Prelude.Index.{
  has, at, has-add_at, has-discard_at, has-discard_or_drop, at-put_at, at-pop_at,
}
use geotrack.Prelude.Text.{String-discrete as same_id}
use geotrack.Float.{Floats}
use geotrack.Realtime.Grid.{Cell, Cell-discrete as same_cell}
use geotrack.Realtime.Hub.{Hub, Entry, PositionItem, DeviceId, apply_item, cell_at, enter, leave}

-- the entry of a device that its cells and its pending changes are about
abbrev pub known : {fl : Floats} → Hub fl → DeviceId → Option (Entry fl)
known h d = get same_id d h.latest

abbrev pub held_in : {fl : Floats} → Hub fl → Cell → DeviceId → Bool
held_in h c d = has same_cell same_id c d h.cells

abbrev pub changed_in : {fl : Floats} → Hub fl → Cell → DeviceId → Bool
changed_in h c d = has same_cell same_id c d h.changed

abbrev pub left : {fl : Floats} → Hub fl → Cell → DeviceId → Option (Option Cell)
left h c d = at same_cell same_id c d h.departed

-- One cell and one device of a hub.
pub record View (fl : Floats) : Type 0 where
  pub entry : Option (Entry fl)
  pub held : Bool
  pub changed : Bool
  pub departed : Option (Option Cell)

abbrev pub view : {fl : Floats} → Hub fl → Cell → DeviceId → View fl
view h c d = record {
  entry = known h d;
  held = held_in h c d;
  changed = changed_in h c d;
  departed = left h c d;
}

abbrev pub Shows : {fl : Floats} → Hub fl → Cell → DeviceId → View fl → Type 0
Shows h c d v =
    (known h d ≡ v.entry)
    × (held_in h c d ≡ v.held)
    × (changed_in h c d ≡ v.changed)
    × (left h c d ≡ v.departed)

module _ {fl : Floats} (cell c : Cell) (item : PositionItem fl) (h : Hub fl) (d : DeviceId) where
  pub view-enter : Shows (enter fl cell item h) c d (record {
    entry = ite (same_id item.device_id d) (some (record { item = item; cell = cell })) (known h d);
    held =
        ite
          (same_cell cell c)
          (ite (same_id item.device_id d) true (held_in h cell d))
          (held_in h c d);
    changed =
        ite
          (same_cell cell c)
          (ite (same_id item.device_id d) true (changed_in h cell d))
          (changed_in h c d);
    departed =
        ite (same_cell cell c) (ite (same_id item.device_id d) none (left h cell d)) (left h c d);
  })
  unfolding enter
  view-enter = (
    get-put same_id item.device_id d _ h.latest,
    has-add_at same_cell same_id cell c item.device_id d h.cells,
    has-add_at same_cell same_id cell c item.device_id d h.changed,
    at-pop_at same_cell same_id cell c item.device_id d h.departed,
  )

module _ {fl : Floats} (cell c : Cell) (id : DeviceId) (to : Option Cell) (h : Hub fl)
    (d : DeviceId) where
  pub view-leave : Shows (leave fl cell id to h) c d (record {
    entry = known h d;
    held = ite (same_cell cell c) (ite (same_id id d) false (held_in h cell d)) (held_in h c d);
    changed =
        ite (same_cell cell c) (ite (same_id id d) false (changed_in h cell d)) (changed_in h c d);
    departed = ite (same_cell cell c) (ite (same_id id d) (some to) (left h cell d)) (left h c d);
  })
  unfolding leave
  view-leave = (
    refl,
    has-discard_or_drop same_cell same_id cell c id d h.cells,
    has-discard_at same_cell same_id cell c id d h.changed,
    at-put_at same_cell same_id cell c id d to h.departed,
  )

-- What `apply` does with one report: the device is new, the report is late, the device stays in
-- its cell, or it comes from another one.
module _ {fl : Floats} where
  pub apply_item_cases {ℓ} :
      (P : Hub fl × Bool → Type ℓ) (item : PositionItem fl) (h : Hub fl)
      → (known h item.device_id ≡ none → P (enter fl (cell_at fl h item) item h, true))
      → ((e : Entry fl)
          → known h item.device_id ≡ some e
          → leb_ℤ item.reported_ms e.item.reported_ms ≡ true
          → P (h, false))
      → ((e : Entry fl)
          → known h item.device_id ≡ some e
          → e.cell ≡ cell_at fl h item
          → P (enter fl (cell_at fl h item) item h, true))
      → ((e : Entry fl)
          → known h item.device_id ≡ some e
          → e.cell ≢ cell_at fl h item
          → P (
            enter fl
                (cell_at fl h item)
                item
                (leave fl e.cell item.device_id (some (cell_at fl h item)) h),
            true,
          ))
      → P (apply_item fl item h)
  unfolding apply_item
  apply_item_cases P item h new late stays moves = elim (Option-cases (known h item.device_id)) [
    | inl n ↦ rw (n, apply_item) (new n)
    | inr (e, old) ↦ elim (Bool-cases (leb_ℤ item.reported_ms e.item.reported_ms)) [
      | inl l ↦ rw (old, apply_item, l) (late e old l)
      | inr l ↦ elim (same_cell e.cell (cell_at fl h item)) [
        | yes p ↦
            rw (old, apply_item, l, if_pos (same_cell e.cell (cell_at fl h item)) p _ _)
              (stays e old p)
        | no p ↦
            rw (old, apply_item, l, if_neg (same_cell e.cell (cell_at fl h item)) p _ _)
              (moves e old p)
      ]
    ]
  ]

-- ===== src/Realtime/Hub/Picture.antt =====
-- The invariant of `PositionHub`: its cells are the entries seen by cell, and what is pending
-- speaks of devices where they are.
use geotrack.Prelude.{
  ℕ, ◌≡◌, refl, Bool, true, false, List, [], ◌∷◌, Option, none, some, ite, arith, inl, inr,
  Option-cases, ◌⊎◌, ◌≢◌,
}
use geotrack.Prelude.Dict.{get, pop, get-pop}
use geotrack.Prelude.Index.{has, at}
use geotrack.Prelude.Int.{ℤ, ◌-ℤ◌}
use geotrack.Prelude.Text.{String-discrete as same_id}
use geotrack.Float.{Floats}
use geotrack.Realtime.Grid.{Cell, Cell-discrete as same_cell}
use geotrack.Realtime.Hub.{
  Hub, Entry, PositionItem, DeviceId, apply_item, apply_items, apply, enter, leave, forget,
  forget_all, sweep, stale_devices, init, nothing_pending, cell_at,
}
use geotrack.Realtime.Hub.Writes.{
  known, held_in, changed_in, left, Shows, apply_item_cases, view-enter, view-leave,
}

-- whether this is the entry of a device in cell `c`
abbrev pub lives : {fl : Floats} → Cell → Option (Entry fl) → Bool
lives c none = false
lives c (some e) = ite (same_cell e.cell c) true false

-- whether the device's present cell holds it among the changes
abbrev pub announced : {fl : Floats} → Hub fl → DeviceId → Option (Entry fl) → Bool
announced h d none = true
announced h d (some e) = changed_in h e.cell d

pub record IsConsistent {fl : Floats} (h : Hub fl) : Type 0 where
  pub picture : (c : Cell) (d : DeviceId) → held_in h c d ≡ lives c (known h d)
  pub current : (c : Cell) (d : DeviceId) → changed_in h c d ≡ true → lives c (known h d) ≡ true
  pub gone :
      (c : Cell) (d : DeviceId) (m : Option Cell)
      → left h c d ≡ some m
      → lives c (known h d) ≡ false
  pub moved :
      (c : Cell) (d : DeviceId) (m : Option Cell)
      → left h c d ≡ some m
      → announced h d (known h d) ≡ true

module _ {fl : Floats} (item : PositionItem fl) (h : Hub fl) (v : IsConsistent h) where
  abbrev cell : Cell
  cell = cell_at fl h item

  -- A report of a device that is new, or that stays in its cell.
  enter-IsConsistent :
      (known h item.device_id ≡ none) ⊎ (lives cell (known h item.device_id) ≡ true)
      → IsConsistent (enter fl cell item h)
  enter-IsConsistent stays = record {
    picture = λ c d. ground (arith, view-enter cell c item h d, v.picture c d, v.picture cell d);
    current = λ c d. ground (arith, view-enter cell c item h d, v.current c d, v.current cell d);
    gone = λ c d m. ground (arith, view-enter cell c item h d, v.gone c d m, v.gone cell d m);
    moved = λ c d m. elim (Option-cases (known h d)) [
      | inl e ↦ ground (
        arith,
        view-enter cell c item h d,
        view-enter cell cell item h d,
        v.moved c d m,
        v.moved cell d m,
      )
      | inr (x, e) ↦ ground (
        arith,
        view-enter cell c item h d,
        view-enter cell cell item h d,
        view-enter cell x.cell item h d,
        v.moved c d m,
        v.moved cell d m,
      )
    ];
  }

  -- A report of a device that comes from another cell.
  module _ (e : Entry fl) (old : known h item.device_id ≡ some e) (far : e.cell ≢ cell) where
    abbrev between : Hub fl
    between = leave fl e.cell item.device_id (some cell) h

    pub move-view :
        (c : Cell) (d : DeviceId)
        → Shows (enter fl cell item between) c d (record {
          entry =
              ite
                (same_id item.device_id d)
                (some (record { item = item; cell = cell }))
                (known h d);
          held = ite (same_id item.device_id d) (ite (same_cell cell c) true false) (held_in h c d);
          changed =
              ite
                (same_id item.device_id d)
                (ite (same_cell cell c) true (ite (same_cell e.cell c) false (changed_in h c d)))
                (changed_in h c d);
          departed =
              ite
                (same_id item.device_id d)
                (ite
                  (same_cell cell c)
                  none
                  (ite (same_cell e.cell c) (some (some cell)) (left h c d)))
                (left h c d);
        })
    move-view c d = ground (
      arith,
      view-enter cell c item between d,
      view-leave e.cell c item.device_id (some cell) h d,
      view-leave e.cell cell item.device_id (some cell) h d,
      v.picture c d,
    )

    pub move-IsConsistent : IsConsistent (enter fl cell item between)
    move-IsConsistent = record {
      picture = λ c d. ground (arith, move-view c d, v.picture c d);
      current = λ c d. ground (arith, move-view c d, v.current c d);
      gone = λ c d m. ground (arith, move-view c d, v.gone c d m);
      moved = λ c d m. elim (Option-cases (known h d)) [
        | inl n ↦ ground (arith, move-view c d, move-view cell d, v.moved c d m)
        | inr (x, n) ↦
            ground (arith, move-view c d, move-view cell d, move-view x.cell d, v.moved c d m)
      ];
    }

-- One report keeps the picture, whatever it says.
pub apply_item-IsConsistent :
    {fl : Floats} (item : PositionItem fl) (h : Hub fl)
    → IsConsistent h
    → IsConsistent (apply_item fl item h).0
apply_item-IsConsistent item h v =
    apply_item_cases (λ r. IsConsistent r.0) item h (λ new. enter-IsConsistent item h v (inl new))
      (λ e old late. v) (λ e old stays. enter-IsConsistent item h v (inr (ground arith)))
      (λ e old far. move-IsConsistent item h v e old far)

apply_items-IsConsistent :
    {fl : Floats} (items : List (PositionItem fl)) (h : Hub fl) (n : ℕ)
    → IsConsistent h
    → IsConsistent (apply_items fl items h n).0
unfolding apply_items
apply_items-IsConsistent [] h n v = v
apply_items-IsConsistent {fl} (item ∷ items) h n v =
    apply_items-IsConsistent items (apply_item fl item h).0 _ (apply_item-IsConsistent item h v)

-- Applying reports, whatever they say, keeps the cells of the hub equal to its entries seen by
-- cell, and every pending change or departure true of where the devices are.
pub apply-IsConsistent :
    {fl : Floats} (items : List (PositionItem fl)) (h : Hub fl)
    → IsConsistent h
    → IsConsistent (apply fl items h)
unfolding apply
apply-IsConsistent items h v =
    let w = apply_items-IsConsistent items h 0 v in
    record { picture = w.picture; current = w.current; gone = w.gone; moved = w.moved }

-- A device that is forgotten leaves its cell for nowhere.
pub forget-view :
    {fl : Floats} (id : DeviceId) (e : Entry fl) (h : Hub fl)
    → IsConsistent h
    → known h id ≡ some e
    → (c : Cell) (d : DeviceId)
    → Shows (forget fl id h) c d (record {
      entry = ite (same_id id d) none (known h d);
      held = ite (same_id id d) false (held_in h c d);
      changed = ite (same_id id d) false (changed_in h c d);
      departed =
          ite (same_id id d) (ite (same_cell e.cell c) (some none) (left h c d)) (left h c d);
    })
unfolding forget
forget-view {fl} id e h v old c d =
    let h' = record h { latest = pop same_id id h.latest } in
    rw (old, forget)
      (ground (
        arith,
        view-leave e.cell c id none h' d,
        get-pop same_id id d h.latest,
        v.picture c d,
        v.current c d,
        v.picture e.cell d,
        v.current e.cell d,
      ))

pub forget-IsConsistent :
    {fl : Floats} (id : DeviceId) (h : Hub fl) → IsConsistent h → IsConsistent (forget fl id h)
unfolding forget
forget-IsConsistent {fl} id h v = elim (Option-cases (known h id)) [
  | inl unknown ↦ rw (unknown, forget) v
  | inr (e, old) ↦
      let shows = forget-view id e h v old in
      record {
        picture = λ c d. ground (arith, shows c d, v.picture c d);
        current = λ c d. ground (arith, shows c d, v.current c d);
        gone = λ c d m. ground (arith, shows c d, v.gone c d m);
        moved = λ c d m. elim (Option-cases (known h d)) [
          | inl n ↦ ground (arith, shows c d, v.moved c d m)
          | inr (x, n) ↦ ground (arith, shows c d, shows x.cell d, v.moved c d m)
        ];
      }
]

forget_all-IsConsistent :
    {fl : Floats} (ids : List DeviceId) (h : Hub fl)
    → IsConsistent h
    → IsConsistent (forget_all fl ids h)
unfolding forget_all
forget_all-IsConsistent [] h v = v
forget_all-IsConsistent {fl} (id ∷ ids) h v =
    forget_all-IsConsistent ids (forget fl id h) (forget-IsConsistent id h v)

-- Sweeping stale devices keeps the cells of the hub equal to its entries seen by cell, and every
-- pending change or departure true of where the devices are.
pub sweep-IsConsistent :
    {fl : Floats} (now : ℤ) (h : Hub fl) → IsConsistent h → IsConsistent (sweep fl now h)
unfolding sweep
sweep-IsConsistent {fl} now h v =
    forget_all-IsConsistent (stale_devices fl (now -ℤ h.stale_after_ms) h.latest) h v

pub init-IsConsistent :
    {fl : Floats} (size : fl.F) (stale_s : ℕ) → IsConsistent (init fl size stale_s)
unfolding init get has at
init-IsConsistent size stale_s = record {
  picture = λ c d. refl;
  current = λ c d. cc;
  gone = λ c d m _. refl;
  moved = λ c d m _. refl;
}

pub settled-IsConsistent :
    {fl : Floats} (h : Hub fl)
    → IsConsistent h
    → IsConsistent (record h { pending = nothing_pending })
unfolding get has at
settled-IsConsistent h v = record {
  picture = v.picture;
  current = λ c d. cc;
  gone = λ c d m. cc;
  moved = λ c d m. cc;
}

-- ===== src/Realtime/Connection/Told.antt =====
-- What a tick's changes do to the picture of a client that was right about the hub before them.
use geotrack.Prelude.{
  ◌≡◌, ◌≢◌, refl, Bool, true, false, List, Option, none, some, ◌∙◌, arith, inl, inr, ◌⊎◌,
  Option-cases, Bool-cases, if◌then◌else◌,
}
use geotrack.Prelude.Text.{String-discrete as same_id}
use geotrack.Float.{Floats}
use geotrack.Realtime.Grid.{Cell, CellRect, covers}
use geotrack.Realtime.Hub.{
  Hub, Entry, PositionItem, DeviceId, apply_item, enter, leave, forget, cell_at,
}
use geotrack.Realtime.Connection.{hidden}
use geotrack.Realtime.Hub.Writes.{known, changed_in, left, apply_item_cases, view-enter}
use geotrack.Realtime.Hub.Picture.{IsConsistent, move-view, forget-view}

-- the item of a device if a viewport covers its cell
abbrev pub shown : {fl : Floats} → List CellRect → Option (Entry fl) → Option (PositionItem fl)
shown rects none = none
shown rects (some e) = if covers rects e.cell then some e.item else none

-- whether the covered chunks carry the device
abbrev pub carried : {fl : Floats} → List CellRect → Hub fl → DeviceId → Option (Entry fl) → Bool
carried rects h d none = false
carried rects h d (some e) = if covers rects e.cell then changed_in h e.cell d else false

-- The device left a covered cell for one that is not.
abbrev pub Removes : {fl : Floats} → List CellRect → Hub fl → DeviceId → Type 0
Removes rects h d =
    (c : Cell) × (m : Option Cell) × (covers rects c ≡ true)
    × (left h c d ≡ some m)
    × (hidden rects m ≡ true)

-- A client that holds `mirror` of the device is told all that it does not know.
abbrev pub Told :
    {fl : Floats} → List CellRect → Hub fl → DeviceId → Option (PositionItem fl) → Type 0
Told rects h d mirror =
    (carried rects h d (known h d) ≡ true) ⊎ Removes rects h d ⊎ (mirror ≡ shown rects (known h d))

-- Two hubs that say the same of a device tell a client the same.
Told-agree :
    {fl : Floats} (rects : List CellRect) (h h' : Hub fl) (d : DeviceId)
    (mirror : Option (PositionItem fl))
    → known h' d ≡ known h d
    → ((c : Cell) → changed_in h' c d ≡ changed_in h c d)
    → ((c : Cell) → left h' c d ≡ left h c d)
    → Told rects h d mirror
    → Told rects h' d mirror
Told-agree rects h h' d mirror k changes lefts told = elim told [
  | inl c ↦ elim (Option-cases (known h d)) [
    | inl n ↦ absurd (ground arith)
    | inr (e, o) ↦ inl (ground (arith, changes e.cell))
  ]
  | inr (inl (c, m, v, l, u)) ↦ inr (inl (c, m, v, lefts c ∙ l, u))
  | inr (inr e) ↦ inr (inr (rw k e))
]

module _ {fl : Floats} (rects : List CellRect) (item : PositionItem fl) (h : Hub fl) (d : DeviceId)
    (mirror : Option (PositionItem fl)) (told : Told rects h d mirror) where
  abbrev cell : Cell
  cell = cell_at fl h item

  enter-Told :
      (known h item.device_id ≡ none)
        ⊎ ((e : Entry fl) × (known h item.device_id ≡ some e) × (e.cell ≡ cell))
      → Told rects (enter fl cell item h) d mirror
  enter-Told stays = elim (same_id item.device_id d) [
    | yes p ↦ elim (Bool-cases (covers rects cell)) [
      | inl seen ↦ inl (ground (arith, view-enter cell cell item h d))
      | inr unseen ↦ elim told [
        | inl c ↦ absurd (ground arith)
        | inr (inl (c, m, v, l, u)) ↦
            inr (inl (c, m, v, ground (arith, view-enter cell c item h d), u))
        | inr (inr e) ↦ inr (inr (ground (arith, view-enter cell cell item h d)))
      ]
    ]
    | no p ↦
        Told-agree rects h (enter fl cell item h) d mirror
          (ground (arith, view-enter cell cell item h d))
          (λ c. ground (arith, view-enter cell c item h d))
          (λ c. ground (arith, view-enter cell c item h d)) told
  ]

  move-Told :
      (v : IsConsistent h) (e : Entry fl) (old : known h item.device_id ≡ some e)
      (far : e.cell ≢ cell)
      → Told rects (enter fl cell item (leave fl e.cell item.device_id (some cell) h)) d mirror
  move-Told v e old far =
      let h' = enter fl cell item (leave fl e.cell item.device_id (some cell) h) in
      let shows = move-view item h v e old far in
      elim (same_id item.device_id d) [
        | yes p ↦ elim (Bool-cases (covers rects cell)) [
          | inl seen ↦ inl (ground (arith, shows cell d))
          | inr unseen ↦ elim (Bool-cases (covers rects e.cell)) [
            | inl was ↦
                inr (inl (e.cell, some cell, was, ground (arith, shows e.cell d), ground arith))
            | inr was ↦ elim told [
              | inl c ↦ absurd (ground arith)
              | inr (inl (c, m, v, l, u)) ↦ inr (inl (c, m, v, ground (arith, shows c d), u))
              | inr (inr same) ↦ inr (inr (ground (arith, shows cell d)))
            ]
          ]
        ]
        | no p ↦
            Told-agree rects h h' d mirror (ground (arith, shows cell d))
              (λ c. ground (arith, shows c d)) (λ c. ground (arith, shows c d)) told
      ]

  pub apply_item-Told : IsConsistent h → Told rects (apply_item fl item h).0 d mirror
  apply_item-Told v =
      apply_item_cases (λ r. Told rects r.0 d mirror) item h (λ new. enter-Told (inl new))
        (λ e old late. told) (λ e old stays. enter-Told (inr (e, old, stays)))
        (λ e old far. move-Told v e old far)

pub forget-Told :
    {fl : Floats} (rects : List CellRect) (id : DeviceId) (h : Hub fl) (d : DeviceId)
    (mirror : Option (PositionItem fl))
    → IsConsistent h
    → Told rects h d mirror
    → Told rects (forget fl id h) d mirror
unfolding forget
forget-Told {fl} rects id h d mirror v told = elim (Option-cases (known h id)) [
  | inl unknown ↦ rw (unknown, forget) told
  | inr (e, old) ↦
      let shows = forget-view id e h v old in
      elim (same_id id d) [
        | yes p ↦ elim (Bool-cases (covers rects e.cell)) [
          | inl was ↦ inr (inl (e.cell, none, was, ground (arith, shows e.cell d), refl))
          | inr was ↦ elim told [
            | inl c ↦ absurd (ground arith)
            | inr (inl (c, m, v, l, u)) ↦ inr (inl (c, m, v, ground (arith, shows c d), u))
            | inr (inr same) ↦ inr (inr (ground (arith, shows e.cell d)))
          ]
        ]
        | no p ↦
            Told-agree rects h (forget fl id h) d mirror (ground (arith, shows e.cell d))
              (λ c. ground (arith, shows c d)) (λ c. ground (arith, shows c d)) told
      ]
]

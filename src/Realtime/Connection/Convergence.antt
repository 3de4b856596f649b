-- ===== src/Realtime/Connection/Convergence.antt =====
-- A client that was right about the hub is right again after the frame of the next tick.
use geotrack.Prelude.{
  ℕ, ◌≡◌, refl, List, [], ◌∷◌, Option, none, arith, inl, inr, Option-cases, Bool-cases,
  if◌then◌else◌,
}
use geotrack.Prelude.Int.{ℤ, ◌-ℤ◌}
use geotrack.Prelude.Index.{member}
use geotrack.Prelude.Text.{String-discrete as same_id}
use geotrack.Float.{Floats}
use geotrack.Realtime.Grid.{CellRect}
use geotrack.Realtime.Hub.{
  Hub, PositionItem, DeviceId, apply_item, apply_items, apply, forget, forget_all, sweep,
  stale_devices, nothing_pending,
}
use geotrack.Realtime.Hub.Writes.{known}
use geotrack.Realtime.Hub.Picture.{IsConsistent, apply_item-IsConsistent, forget-IsConsistent}
use geotrack.Realtime.Hub.Indexed.{
  IsIndexed, apply_item-IsIndexed, forget-IsIndexed, settled-IsIndexed,
}
use geotrack.Realtime.Connection.Told.{shown, carried, Told, apply_item-Told, forget-Told}
use geotrack.Realtime.Connection.Removed.{removed_now, Removes-member, member-Removes}

-- What can happen to the hub between two ticks.
pub data Event (fl : Floats) : Type 0 where
  reports : List (PositionItem fl) → Event fl
  sweeps : ℤ → Event fl

module _ {fl : Floats} where
  pub run : List (Event fl) → Hub fl → Hub fl
  run [] h = h
  run (reports items ∷ events) h = run events (apply fl items h)
  run (sweeps now ∷ events) h = run events (sweep fl now h)

  -- What a client holds of a device after a frame: a removed device is dropped, a carried item
  -- is stored, in this order; `mirror` is what it held before.
  pub after_frame :
      List CellRect → Hub fl → DeviceId → Option (PositionItem fl) → Option (PositionItem fl)
  after_frame rects h d mirror =
      if carried rects h d (known h d)
      then shown rects (known h d)
      else if member same_id d (removed_now rects h d)
      then none
      else mirror

  -- The facts of a hub that every event keeps.
  pub record IsSound (rects : List CellRect) (d : DeviceId) (mirror : Option (PositionItem fl))
      (h : Hub fl) : Type 0 where
    pub consistent : IsConsistent h
    pub indexed : IsIndexed h
    pub told : Told rects h d mirror

  module _ (rects : List CellRect) (d : DeviceId) (mirror : Option (PositionItem fl)) where
    apply_items-IsSound :
        (items : List (PositionItem fl)) (h : Hub fl) (n : ℕ)
        → IsSound rects d mirror h
        → IsSound rects d mirror (apply_items fl items h n).0
    unfolding apply_items
    apply_items-IsSound [] h n s = s
    apply_items-IsSound (item ∷ items) h n s =
        apply_items-IsSound items (apply_item fl item h).0 _ (record {
          consistent = apply_item-IsConsistent item h s.consistent;
          indexed = apply_item-IsIndexed item h s.indexed;
          told = apply_item-Told rects item h d mirror s.told s.consistent;
        })

    forget_all-IsSound :
        (ids : List DeviceId) (h : Hub fl)
        → IsSound rects d mirror h
        → IsSound rects d mirror (forget_all fl ids h)
    unfolding forget_all
    forget_all-IsSound [] h s = s
    forget_all-IsSound (id ∷ ids) h s = forget_all-IsSound ids (forget fl id h) (record {
      consistent = forget-IsConsistent id h s.consistent;
      indexed = forget-IsIndexed id h s.indexed;
      told = forget-Told rects id h d mirror s.consistent s.told;
    })

    pub run-IsSound :
        (events : List (Event fl)) (h : Hub fl)
        → IsSound rects d mirror h
        → IsSound rects d mirror (run events h)
    unfolding run apply sweep
    run-IsSound [] h s = s
    run-IsSound (reports items ∷ events) h s =
        let t = apply_items-IsSound items h 0 s in
        let c = t.consistent in
        run-IsSound events (apply fl items h) (record {
          consistent = record {
            picture = c.picture;
            current = c.current;
            gone = c.gone;
            moved = c.moved;
          };
          indexed = record {
            cells_once = t.indexed.cells_once;
            devices_once = t.indexed.devices_once;
            changed_once = t.indexed.changed_once;
          };
          told = t.told;
        })
    run-IsSound (sweeps now ∷ events) h s =
        run-IsSound events (sweep fl now h)
          (forget_all-IsSound (stale_devices fl (now -ℤ h.stale_after_ms) h.latest) h s)

    pub after_frame-shown :
        (h : Hub fl)
        → IsSound rects d mirror h
        → after_frame rects h d mirror ≡ shown rects (known h d)
    unfolding after_frame
    after_frame-shown h s = elim (Bool-cases (carried rects h d (known h d))) [
      | inl yes_carried ↦ rw yes_carried
      | inr not_carried ↦ elim (Bool-cases (member same_id d (removed_now rects h d))) [
        | inl gone ↦
            let (c, m, v, l, u) = member-Removes rects h d s.indexed gone in
            elim (Option-cases (known h d)) [
              | inl n ↦ ground arith
              | inr (e, o) ↦ ground (arith, s.consistent.moved c d m)
            ]
        | inr stays ↦ elim s.told [
          | inl c ↦ absurd (ground arith)
          | inr (inl r) ↦ absurd (ground (arith, Removes-member rects h d r))
          | inr (inr same) ↦ rw (not_carried, stays) same
        ]
      ]
    ]

-- Take a client that is right about a device when nothing is pending, and any reports and sweeps
-- before the next tick. If that tick's frame is read with the removed devices dropped first, the
-- client again holds the device's present item if its viewport covers the device, and nothing if
-- it does not.
pub frame_converges :
    {fl : Floats} (rects : List CellRect) (h : Hub fl) (events : List (Event fl)) (d : DeviceId)
    → IsConsistent h
    → h.pending ≡ nothing_pending
    → after_frame rects (run events h) d (shown rects (known h d))
      ≡ shown rects (known (run events h) d)
frame_converges rects h events d v settled =
    after_frame-shown rects d (shown rects (known h d)) (run events h) (
      run-IsSound rects d (shown rects (known h d)) events h
        (record { consistent = v; indexed = rw settled at_rest; told = inr (inr refl) }))
  where
    at_rest : IsIndexed (record h { pending = nothing_pending })
    at_rest = settled-IsIndexed h

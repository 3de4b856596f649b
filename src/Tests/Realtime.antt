-- ===== src/Tests/Realtime.antt =====
-- src/geotrack/realtime: one device, a viewport of two rectangles and cells of one degree.
use geotrack.Prelude.{
  ℕ, ◌+◌, ◌-◌, ◌/◌, ◌%◌, ◌≡◌, refl, ◌↔◌, true, List, [], ◌∷◌, some, In, arith, if◌then◌else◌,
  ℕ_discrete,
}
use geotrack.Prelude.Int.{ℤ, pos, negsuc, sub_ℕ, pos_part, neg_part, leb_ℤ, ltb_ℤ, ℤ-discrete, ◌*ℤ◌}
use geotrack.Prelude.Index.{member}
use geotrack.Prelude.Dict.{Distinct, get, put, pop}
use geotrack.Prelude.Text.{String-discrete}
use geotrack.Float.{Floats}
use geotrack.Realtime.Grid.{Cell-discrete, CellRect, covers, cell_of}
use geotrack.Realtime.Hub.{
  Hub, PositionItem, TickDelta, init, apply, apply_item, discard_pending, drain, sweep,
  departures_of, nothing_pending,
}
use geotrack.Realtime.Hub.Writes.{known}
use geotrack.Realtime.Hub.Picture.{
  IsConsistent, init-IsConsistent, apply-IsConsistent, settled-IsConsistent,
  apply_item-IsConsistent,
}
use geotrack.Realtime.Hub.Indexed.{IsIndexed, settled-IsIndexed, apply_item-IsIndexed}
use geotrack.Realtime.Hub.Drain.{rendered, drain-total}
use geotrack.Realtime.Protocol.{Wire}
use geotrack.Realtime.Connection.{
  Connection, open_connection, send_control, request_close, set_viewport, offer_positions,
  next_frame, visible_chunks,
}
use geotrack.Realtime.Connection.Sender.{timed_out, send_bytes}
use geotrack.Realtime.Connection.Bounds.{
  IsBounded, Call, sends, views, offers, takes, tries, acloses, calls, calls-IsBounded,
}
use geotrack.Realtime.Connection.Told.{shown, carried}
use geotrack.Realtime.Connection.Removed.{removed_now}
use geotrack.Realtime.Connection.Convergence.{
  Event, reports, sweeps, run, after_frame, frame_converges,
}
use geotrack.Realtime.Connection.Revisit.{revisit_carried_and_removed}
use geotrack.Realtime.Connection.Chunks.{Picks, visible_chunks_iff}

abbrev plus : ℤ → ℤ → ℤ
plus a b = sub_ℕ (pos_part a + pos_part b) (neg_part a + neg_part b)

abbrev minus : ℤ → ℤ → ℤ
minus a b = sub_ℕ (pos_part a + neg_part b) (neg_part a + pos_part b)

abbrev floor_div : ℤ → ℤ → ℤ
floor_div (pos a) (pos b) = pos (a / b)
floor_div (negsuc a) (pos b) = negsuc (a / b)
floor_div a (negsuc b) = a

abbrev floor_mod : ℤ → ℤ → ℤ
floor_mod (pos a) (pos b) = pos (a % b)
floor_mod (negsuc a) (pos b) = pos (b - 1 - a % b)
floor_mod a (negsuc b) = a

abbrev before : ℤ → ℤ → ℤ
before a b = if ltb_ℤ b a then minus a (pos 1) else if ltb_ℤ a b then plus a (pos 1) else a

abbrev pub integers : Floats
integers = record {
  F = ℤ;
  le = leb_ℤ;
  lt = ltb_ℤ;
  add = plus;
  sub = minus;
  mul = ◌*ℤ◌;
  mod_ = floor_mod;
  div = floor_div;
  floor = λ a. a;
  is_finite = λ a. true;
  nextafter = before;
  literal = λ a. a;
}

-- Every position in the same second, in the row of latitude 10 and the column of its longitude.
abbrev report : ℕ → ℕ → PositionItem integers
report lon at = record { device_id = "truck"; lat = pos 10; lon = pos lon; reported_ms = pos at }

-- Columns 10 and 12 are covered, column 11 is not.
abbrev two_columns : List CellRect
two_columns =
    record { min_x = pos 10; min_y = pos 0; max_x = pos 10; max_y = pos 90 }
    ∷ record { min_x = pos 12; min_y = pos 0; max_x = pos 12; max_y = pos 90 }
    ∷ []

abbrev empty : Hub integers
empty = init integers (pos 1) 60

abbrev parked : Hub integers
parked = discard_pending integers (apply integers (report 10 1_000 ∷ []) empty)

parked-IsConsistent : IsConsistent parked
unfolding discard_pending
parked-IsConsistent =
    settled-IsConsistent (apply integers (report 10 1_000 ∷ []) empty)
      (apply-IsConsistent (report 10 1_000 ∷ []) empty (init-IsConsistent (pos 1) 60))

parked-IsIndexed : IsIndexed parked
unfolding discard_pending
parked-IsIndexed = settled-IsIndexed (apply integers (report 10 1_000 ∷ []) empty)

program : Unit {0}
unfolding init apply discard_pending drain cell_of covers get put pop send_control request_close
    set_viewport offer_positions next_frame sweep visible_chunks ℤ-discrete ℕ_discrete Cell-discrete
    String-discrete
program = tt

abbrev drive : List (Event integers)
drive = reports (report 11 2_000 ∷ []) ∷ reports (report 12 3_000 ∷ []) ∷ sweeps (pos 4_000) ∷ []

parked-known :
    known parked "truck" ≡ some (record { item = report 10 1_000; cell = (pos 10, pos 10) })
unfolding program
parked-known = refl

frame_converges_example :
    after_frame two_columns (run drive parked) "truck" (shown two_columns (known parked "truck"))
    ≡ shown two_columns (known (run drive parked) "truck")
unfolding discard_pending
frame_converges_example = frame_converges two_columns parked drive "truck" parked-IsConsistent refl

revisit_carried_and_removed_example :
    let h' =
      (apply_item integers (report 12 3_000) (apply_item integers (report 11 2_000) parked).0).0 in
    (carried two_columns h' "truck" (known h' "truck") ≡ true)
    × (member String-discrete "truck" (removed_now two_columns h' "truck") ≡ true)
unfolding program
revisit_carried_and_removed_example =
    revisit_carried_and_removed two_columns parked
      (record { item = report 10 1_000; cell = (pos 10, pos 10) }) (report 11 2_000)
      (report 12 3_000) parked-IsConsistent refl refl refl refl refl refl refl (λ p. cc)

apply-IsConsistent_example : IsConsistent (apply integers (report 11 2_000 ∷ []) parked)
apply-IsConsistent_example = apply-IsConsistent (report 11 2_000 ∷ []) parked parked-IsConsistent

abbrev wire : Wire integers
wire = record {
  encode = λ item. b'"' ∷ b'"' ∷ [];
  dumps_ids = λ ids. b'[' ∷ b']' ∷ [];
  decimal = λ n. b'0' ∷ [];
}

abbrev driven : Hub integers
driven = (apply_item integers (report 11 2_000) parked).0

drain-total_example :
    drain integers wire.encode (pos 5_000) driven
    ≡ some (
      record {
        t_ms = pos 5_000;
        chunks = rendered wire.encode driven.latest driven.changed;
        departures = departures_of driven.departed;
      },
      record driven { pending = nothing_pending },
    )
drain-total_example =
    drain-total wire.encode (pos 5_000) driven
      (apply_item-IsConsistent (report 11 2_000) parked parked-IsConsistent)
      (apply_item-IsIndexed (report 11 2_000) parked parked-IsIndexed)

abbrev delta : TickDelta
delta = record {
  t_ms = pos 5_000;
  chunks = ((pos 10, pos 10), b'"' ∷ []) ∷ ((pos 11, pos 10), b',' ∷ []) ∷ [];
  departures = [];
}

abbrev opened : Connection integers
opened = open_connection (pos 1) 2

once : Distinct Cell-discrete delta.chunks
unfolding program
once = (refl, (refl, tt))

visible_chunks_iff_example :
    In (b'"' ∷ []) (visible_chunks opened delta two_columns)
    ↔ Picks two_columns delta.chunks (b'"' ∷ [])
visible_chunks_iff_example = visible_chunks_iff opened delta two_columns (b'"' ∷ []) once

opened-IsBounded : IsBounded opened
unfolding open_connection
opened-IsBounded = record {
  queue = omega arith;
  one_frame = λ h. refl;
  drained = λ h w. (refl, refl);
}

-- a viewport, two deltas and a snapshot, then more control frames than fit
abbrev used : List (Call integers)
used =
    views (record { west = pos 10; south = pos 0; east = pos 10; north = pos 90 })
    ∷ offers delta
    ∷ takes (pos 6_000) driven
    ∷ offers delta
    ∷ offers delta
    ∷ sends []
    ∷ sends []
    ∷ tries timed_out (send_bytes [])
    ∷ acloses
    ∷ []

calls-IsBounded_example : IsBounded (calls wire used opened)
calls-IsBounded_example = calls-IsBounded wire used opened opened-IsBounded

-- ===== src/Tests/Processor.antt =====
-- src/geotrack/processor/batch.py: a truck that drives into a zone, and a batch whose first
-- attempt deadlocks.
use Prim.Native.String.{String}
use geotrack.Prelude.{
  ℕ, zero, arith, ◌-◌, ◌*◌, ◌≤◌, ◌≡◌, refl, ◌↔◌, true, false, List, [], ◌∷◌, some, In, here, there,
  select,
}
use geotrack.Prelude.Int.{pos, leb_ℤ, ◌+ℤ◌, ◌-ℤ◌}
use geotrack.Prelude.Dict.{Distinct, get, put, pop}
use geotrack.Prelude.Result.{ok, raise}
use geotrack.Prelude.Text.{String-discrete}
use geotrack.Processor.Tables.{Key-discrete, LocationRecord, Geozone, Tables, Database}
use geotrack.Processor.Reports.{reported, Unique}
use geotrack.Processor.Transitions.{accepted, is_hit}
use geotrack.Processor.Statement.{apply_batch}
use geotrack.Processor.Statement.Events.{present}
use geotrack.Processor.Statement.Presence.{presence-exact}
use geotrack.Processor.Statement.Order.{AlertsInOrder, apply_batch-AlertsInOrder}
use geotrack.Processor.Statement.Replay.{apply_batch-replayed}
use geotrack.Processor.Batch.{
  Answer, bad_device_id, latest_per_device, split_storable, attempt_from,
}
use geotrack.Processor.Batch.Latest.{latest_per_device-newest}
use geotrack.Processor.Batch.Retry.{is_final, Repeated, attempt_from-first_final}
use geotrack.Processor.Batch.Split.{is_storable, IsRejected, split_storable_iff}
use geotrack.Tests.Realtime.{integers}

-- a zone reaches as far as its radius, to the north of its centre
abbrev flat : Database integers
flat = record {
  overlaps = λ z lat lon. leb_ℤ z.center_lat lat;
  within = λ z lat lon. leb_ℤ lat z.radius_m;
  before = λ a b. true;
  alert_id = λ n. n * 2;
}

abbrev depot : Geozone integers
depot = record {
  user_id = "ann";
  name = "depot";
  center_lat = pos 10;
  center_lon = pos 10;
  radius_m = pos 20;
  alert_on_enter = true;
  alert_on_exit = true;
  dwell_alert_interval_s = some 60;
}

abbrev report : String → ℕ → ℕ → LocationRecord integers
report device lat at = record {
  device_id = device;
  lat = pos lat;
  lon = pos 10;
  reported_ms = pos at;
  received_ms = pos at;
}

abbrev batch : List (LocationRecord integers)
batch = report "truck" 15 2_000 ∷ report "van" 50 1_000 ∷ []

abbrev tables : Tables integers
tables = record {
  device_positions = [];
  geozones = ("zone", depot) ∷ [];
  zone_presence =
      (("zone", "van"), record { entered_at = pos 0; last_seen_at = pos 0; last_alert_at = pos 0 })
      ∷ [];
  alerts = [];
  next_alert = 1;
  location_history = [];
}

program : Unit {0}
unfolding accepted get put pop reported String-discrete
program = tt

batch-Unique : Unique batch
unfolding program
batch-Unique = (refl, (refl, tt))

once : Distinct String-discrete tables.geozones
unfolding program
once = (refl, tt)

found : get String-discrete "zone" tables.geozones ≡ some depot
unfolding program
found = refl

truck_accepted : In (report "truck" 15 2_000) (accepted tables.device_positions batch)
unfolding program
truck_accepted = here

bus_absent : reported "bus" (accepted tables.device_positions batch) ≡ false
unfolding program
bus_absent = refl

presence-exact_example :
    present (
      get Key-discrete
        ("zone", "truck")
        (apply_batch flat (pos 3_000) batch tables).0.zone_presence)
    ≡ is_hit flat (report "truck" 15 2_000) depot
presence-exact_example =
    presence-exact flat (pos 3_000) batch tables "zone" depot (report "truck" 15 2_000) batch-Unique
      once found truck_accepted

apply_batch-replayed_example :
    let t' = (apply_batch flat (pos 3_000) batch tables).0 in
    apply_batch flat (pos 4_000) batch t' ≡ (t', ([], []))
apply_batch-replayed_example =
    apply_batch-replayed flat (pos 3_000) (pos 4_000) batch tables batch-Unique

abbrev backlog : List (LocationRecord integers)
backlog = report "truck" 15 2_000 ∷ report "truck" 16 1_000 ∷ []

latest_per_device-newest_example :
    Unique (latest_per_device backlog)
    × (s : LocationRecord integers) × In s (latest_per_device backlog)
    × (s.device_id ≡ "truck")
    × (leb_ℤ (pos 1_000) s.reported_ms ≡ true)
latest_per_device-newest_example =
    latest_per_device-newest backlog (report "truck" 16 1_000) (there here)

-- deadlocks once, then commits
abbrev answers : ℕ → Answer (Tables integers)
answers zero = raise (some "40P01")
answers n = ok tables

attempt_from-first_final_example :
    (n : ℕ) × (n ≤ 5 - 1)
    × (is_final answers 5 n ≡ true)
    × Repeated answers 5 n
    × (attempt_from answers 5 6 0 ≡ some (answers n))
attempt_from-first_final_example = attempt_from-first_final answers 5

split_storable_iff_example :
    let oldest = pos 10_000 -ℤ pos (30 * 86_400_000) in
    let newest = pos 10_000 +ℤ pos (60 * 1_000) in
    let split = split_storable (pos 10_000) 30 60 (report "a b" 15 2_000 ∷ batch) in
    (split.0 ≡ select (is_storable oldest newest) (report "a b" 15 2_000 ∷ batch))
    × (In (0, report "a b" 15 2_000, bad_device_id) split.1
        ↔ IsRejected oldest newest
            (report "a b" 15 2_000 ∷ batch)
            0
            (report "a b" 15 2_000)
            bad_device_id)
split_storable_iff_example =
    split_storable_iff (pos 10_000) 30 60 (report "a b" 15 2_000 ∷ batch) 0 (report "a b" 15 2_000)
      bad_device_id

apply_batch-AlertsInOrder_example : AlertsInOrder (apply_batch flat (pos 3_000) batch tables).1.1
apply_batch-AlertsInOrder_example =
    apply_batch-AlertsInOrder flat (pos 3_000) batch tables (λ n. omega arith)

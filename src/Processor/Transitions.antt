-- ===== src/Processor/Transitions.antt =====
-- src/geotrack/processor/batch.py: `APPLY_BATCH_SQL` up to `events`. Each function is one of the
-- statement's common table expressions.
use Prim.Native.String.{String}
use geotrack.Prelude.{
  ℕ, ◌*◌, Bool, true, false, ◌&&◌, List, [], ◌∷◌, ◌++◌, Option, none, some, ite, if◌then◌else◌, map,
  select,
}
use geotrack.Prelude.Int.{ℤ, pos, leb_ℤ, ltb_ℤ, ◌+ℤ◌}
use geotrack.Prelude.Dict.{Dict, get, put}
use geotrack.Prelude.Text.{String-discrete}
use geotrack.Float.{Floats}
use geotrack.Processor.Tables.{
  ZoneId, Key, Key-discrete, LocationRecord, DevicePosition, Geozone, ZonePresence, AlertKind,
  enter, exit_, dwell, entered, stays, left, Transition, Event, Database,
}

abbrev pub Hit : Floats → Type 0
Hit fl = LocationRecord fl × ZoneId × Geozone fl

-- `reported_at >= last_alert_at + interval`, which is false for a `NULL`
unfoldable pub dwell_due : ℤ → Option ℤ → Option ℕ → Bool
unfolding ◌+ℤ◌
dwell_due now (some last) (some interval) = leb_ℤ (last +ℤ pos (interval * 1_000)) now
dwell_due now last interval = false

module _ {fl : Floats} where
  -- `accepted`: the reports that update a row
  abbrev pub updates : Option (DevicePosition fl) → LocationRecord fl → Bool
  updates none r = true
  updates (some p) r = ltb_ℤ p.reported_at r.reported_ms

  unfoldable pub accepted :
      Dict String (DevicePosition fl) → List (LocationRecord fl) → List (LocationRecord fl)
  accepted positions rs = select (λ r. updates (get String-discrete r.device_id positions) r) rs

  abbrev pub stored : ℤ → LocationRecord fl → DevicePosition fl
  stored now r = record {
    lat = r.lat;
    lon = r.lon;
    reported_at = r.reported_ms;
    received_at = r.received_ms;
    updated_at = now;
  }

  unfoldable pub upsert_positions :
      ℤ
      → List (LocationRecord fl)
      → Dict String (DevicePosition fl)
      → Dict String (DevicePosition fl)
  upsert_positions now [] positions = positions
  upsert_positions now (r ∷ rs) positions =
      upsert_positions now rs (put String-discrete r.device_id (stored now r) positions)

  unfoldable pub entering : Dict Key ZonePresence → Hit fl → Transition fl
  entering presence (r, id, z) = elim (get Key-discrete (id, r.device_id) presence) [
    | none ↦ record { zone_id = id; zone = z; report = r; last_alert_at = none; state = entered }
    | some p ↦ record {
      zone_id = id;
      zone = z;
      report = r;
      last_alert_at = some p.last_alert_at;
      state = stays;
    }
  ]

  -- `EXISTS (SELECT 1 FROM hits h WHERE ...)`
  unfoldable pub is_hit_in : Key → List (Hit fl) → Bool
  is_hit_in k [] = false
  is_hit_in k ((r, id, z) ∷ hs) = ite (Key-discrete (id, r.device_id) k) true (is_hit_in k hs)

  -- the `exit` rows of one accepted report
  unfoldable pub exits_of :
      LocationRecord fl
      → List (Hit fl)
      → Dict ZoneId (Geozone fl)
      → Dict Key ZonePresence
      → List (Transition fl)
  unfolding is_hit_in
  exits_of r hs zones [] = []
  exits_of r hs zones (((id, device), p) ∷ presence) =
      let rest = exits_of r hs zones presence in
      ite (String-discrete device r.device_id)
        (elim (get String-discrete id zones) [
          | none ↦ rest
          | some z ↦
              if is_hit_in (id, device) hs
              then rest
              else record {
                zone_id = id;
                zone = z;
                report = r;
                last_alert_at = some p.last_alert_at;
                state = left;
              }
                ∷ rest
        ])
        rest

  unfoldable pub exits :
      List (LocationRecord fl)
      → List (Hit fl)
      → Dict ZoneId (Geozone fl)
      → Dict Key ZonePresence
      → List (Transition fl)
  unfolding exits_of
  exits [] hs zones presence = []
  exits (r ∷ rs) hs zones presence = exits_of r hs zones presence ++ exits rs hs zones presence

  unfoldable pub kind_of : Transition fl → Option AlertKind
  unfolding dwell_due
  kind_of t = elim t.state [
    | entered ↦ if t.zone.alert_on_enter then some enter else none
    | left ↦ if t.zone.alert_on_exit then some exit_ else none
    | stays ↦
        if dwell_due t.report.reported_ms t.last_alert_at t.zone.dwell_alert_interval_s
        then some dwell
        else none
  ]

  unfoldable pub event : Transition fl → Event fl
  unfolding kind_of
  event t = record { transition = t; kind = kind_of t }

module _ {fl : Floats} (db : Database fl) where
  unfoldable pub is_hit : LocationRecord fl → Geozone fl → Bool
  is_hit r z = db.overlaps z r.lat r.lon && db.within z r.lat r.lon

  unfoldable pub hits_of : LocationRecord fl → Dict ZoneId (Geozone fl) → List (Hit fl)
  unfolding is_hit
  hits_of r [] = []
  hits_of r ((id, z) ∷ zones) =
      let rest = hits_of r zones in if is_hit r z then (r, id, z) ∷ rest else rest

  unfoldable pub hits : List (LocationRecord fl) → Dict ZoneId (Geozone fl) → List (Hit fl)
  unfolding hits_of
  hits [] zones = []
  hits (r ∷ rs) zones = hits_of r zones ++ hits rs zones

  unfoldable pub transitions :
      List (LocationRecord fl)
      → Dict ZoneId (Geozone fl)
      → Dict Key ZonePresence
      → List (Transition fl)
  unfolding hits entering exits
  transitions acc zones presence =
      map (entering presence) (hits acc zones) ++ exits acc (hits acc zones) zones presence

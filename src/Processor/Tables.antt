-- ===== src/Processor/Tables.antt =====
-- src/geotrack/processor/batch.py: the rows that its SQL statements read and write.
use Prim.Native.String.{String}
use geotrack.Prelude.{ℕ, Bool, List, Option}
use geotrack.Prelude.Int.{ℤ}
use geotrack.Prelude.Dict.{Dict}
use geotrack.Prelude.Text.{String-discrete}
use geotrack.Float.{Floats}

abbrev pub ZoneId : Type 0
ZoneId = String

abbrev pub Key : Type 0
Key = String × String

unfoldable pub Key-discrete : Discrete Key
unfolding String-discrete
Key-discrete = hlevel String-discrete

-- `LocationRecord` of src/geotrack/messaging/codec.py
pub record LocationRecord (fl : Floats) : Type 0 where
  pub device_id : String
  pub lat : fl.F
  pub lon : fl.F
  pub reported_ms : ℤ
  pub received_ms : ℤ

-- a row of `device_positions`, its times in milliseconds
pub record DevicePosition (fl : Floats) : Type 0 where
  pub lat : fl.F
  pub lon : fl.F
  pub reported_at : ℤ
  pub received_at : ℤ
  pub updated_at : ℤ

-- a row of `geozones`, as far as the statement reads it
pub record Geozone (fl : Floats) : Type 0 where
  pub user_id : String
  pub name : String
  pub center_lat : fl.F
  pub center_lon : fl.F
  pub radius_m : fl.F
  pub alert_on_enter : Bool
  pub alert_on_exit : Bool
  pub dwell_alert_interval_s : Option ℕ

pub record ZonePresence : Type 0 where
  pub entered_at : ℤ
  pub last_seen_at : ℤ
  pub last_alert_at : ℤ

pub data AlertKind : Type 0 where
  enter exit_ dwell : AlertKind

pub record Alert (fl : Floats) : Type 0 where
  pub id : ℕ
  pub user_id : String
  pub zone_id : ZoneId
  pub zone_name : String
  pub device_id : String
  pub kind : AlertKind
  pub lat : fl.F
  pub lon : fl.F
  pub occurred_at : ℤ
  pub created_at : ℤ

pub record Tables (fl : Floats) : Type 0 where
  pub device_positions : Dict String (DevicePosition fl)
  pub geozones : Dict ZoneId (Geozone fl)
  -- by zone and device
  pub zone_presence : Dict Key ZonePresence
  -- in no order, and which of the identities drawn for them the next one takes
  pub alerts : List (Alert fl)
  pub next_alert : ℕ
  -- by device and `reported_at`
  pub location_history : List (LocationRecord fl)

pub data State : Type 0 where
  entered stays left : State

-- A row of `transitions`: the zone's and the report's columns stand as the rows they come from.
pub record Transition (fl : Floats) : Type 0 where
  pub zone_id : ZoneId
  pub zone : Geozone fl
  pub report : LocationRecord fl
  pub last_alert_at : Option ℤ
  pub state : State

-- A row of `events`.
pub record Event (fl : Floats) : Type 0 where
  pub transition : Transition fl
  pub open transition use *
  pub kind : Option AlertKind

-- What the statement takes from PostGIS, from the order of PostgreSQL's texts and UUIDs, and from
-- the sequence of the alerts' identities.
pub record Database (fl : Floats) : Type 0 where
  -- `z.search_area && position`
  pub overlaps : Geozone fl → fl.F → fl.F → Bool
  -- `ST_DWithin(z.center, position, z.radius_m)`
  pub within : Geozone fl → fl.F → fl.F → Bool
  -- the order of two rows by `zone_id, device_id`
  pub before : Key → Key → Bool
  -- The identities that the rows of these statements draw, in the order of the draws. Other
  -- transactions, and those that are rolled back, draw from the same sequence.
  pub alert_id : ℕ → ℕ

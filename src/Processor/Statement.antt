-- ===== src/Processor/Statement.antt =====
-- src/geotrack/processor/batch.py: `INSERT_HISTORY_SQL` and `APPLY_BATCH_SQL`, as functions on the
-- tables that they read and write. Each function is one of the common table expressions, and all of
-- them read the tables as they are before the statement, as PostgreSQL's do. PostGIS is a parameter.
pub mod Events
pub mod Presence
pub mod Replay
pub mod Order
use geotrack.Prelude.{
  ℕ, suc, ◌+◌, Bool, true, false, ◌&&◌, List, [], ◌∷◌, ◌++◌, Option, none, some, ite, if◌then◌else◌,
  map, any, length,
}
use geotrack.Prelude.Int.{ℤ, leb_ℤ, ltb_ℤ}
use geotrack.Prelude.Dict.{Dict, get, put, pop}
use geotrack.Prelude.Text.{String-discrete}
use geotrack.Float.{Floats}
use geotrack.Processor.Tables.{
  Key, Key-discrete, LocationRecord, ZonePresence, AlertKind, dwell, Alert, Tables, entered, stays,
  left, Event, Database,
}
use geotrack.Processor.Transitions.{accepted, upsert_positions, transitions, event}

-- The rows of the result: `position` rows and `alert` rows.
abbrev pub Rows : Floats → Type 0
Rows fl = List (LocationRecord fl) × List (Alert fl)

-- `COALESCE(CASE WHEN kind = 'dwell' THEN reported_at ELSE last_alert_at END, reported_at)`
abbrev pub alert_clock : Option AlertKind → Option ℤ → ℤ → ℤ
alert_clock (some dwell) last reported_at = reported_at
alert_clock kind (some last) reported_at = last
alert_clock kind none reported_at = reported_at

module _ {fl : Floats} where
  abbrev pub key : Event fl → Key
  key e = (e.zone_id, e.report.device_id)

  -- one row of `presence_upsert`
  unfoldable pub upserted : Option ZonePresence → Event fl → ZonePresence
  upserted old e = record {
    entered_at = elim old [ none ↦ e.report.reported_ms | some p ↦ p.entered_at ];
    last_seen_at = e.report.reported_ms;
    last_alert_at = alert_clock e.kind e.last_alert_at e.report.reported_ms;
  }

  unfoldable pub upsert_presence : List (Event fl) → Dict Key ZonePresence → Dict Key ZonePresence
  unfolding upserted
  upsert_presence [] presence = presence
  upsert_presence (e ∷ es) presence = elim e.state [
    | left ↦ upsert_presence es presence
    | entered ↦
        upsert_presence es
          (put Key-discrete (key e) (upserted (get Key-discrete (key e) presence) e) presence)
    | stays ↦
        upsert_presence es
          (put Key-discrete (key e) (upserted (get Key-discrete (key e) presence) e) presence)
  ]

  unfoldable pub delete_presence : List (Event fl) → Dict Key ZonePresence → Dict Key ZonePresence
  delete_presence [] presence = presence
  delete_presence (e ∷ es) presence = elim e.state [
    | left ↦ delete_presence es (pop Key-discrete (key e) presence)
    | entered ↦ delete_presence es presence
    | stays ↦ delete_presence es presence
  ]

  -- `INSERT_HISTORY_SQL`: the primary key is the device and the time of the report.
  unfoldable pub archived : LocationRecord fl → List (LocationRecord fl) → Bool
  archived r history =
      any
        (λ s.
          ite (String-discrete s.device_id r.device_id)
            (leb_ℤ s.reported_ms r.reported_ms && leb_ℤ r.reported_ms s.reported_ms) false)
        history

  unfoldable pub insert_history :
      List (LocationRecord fl) → List (LocationRecord fl) → List (LocationRecord fl)
  unfolding archived
  insert_history [] history = history
  insert_history (r ∷ rs) history =
      insert_history rs (if archived r history then history else r ∷ history)

module _ {fl : Floats} (db : Database fl) where
  -- `ORDER BY reported_at, zone_id, device_id`
  abbrev pub comes_before : Event fl → Event fl → Bool
  comes_before a b =
      if ltb_ℤ a.report.reported_ms b.report.reported_ms
      then true
      else if ltb_ℤ b.report.reported_ms a.report.reported_ms
      then false
      else db.before (key a) (key b)

  unfoldable pub insert_in_order : Event fl → List (Event fl) → List (Event fl)
  insert_in_order e [] = e ∷ []
  insert_in_order e (f ∷ fs) =
      let rest = insert_in_order e fs in if comes_before e f then e ∷ f ∷ fs else f ∷ rest

  unfoldable pub in_order : List (Event fl) → List (Event fl)
  unfolding insert_in_order
  in_order [] = []
  in_order (e ∷ es) = insert_in_order e (in_order es)

  unfoldable pub events : List (LocationRecord fl) → Tables fl → List (Event fl)
  unfolding transitions event accepted
  events rs t =
      map event (transitions db (accepted t.device_positions rs) t.geozones t.zone_presence)

  -- `WHERE kind IS NOT NULL`, with the identities drawn in the order of the rows
  unfoldable pub new_alerts : ℤ → List (Event fl) → ℕ → List (Alert fl)
  new_alerts now [] next = []
  new_alerts now (e ∷ es) next = elim e.kind [
    | none ↦ new_alerts now es next
    | some kind ↦
        record {
          id = db.alert_id next;
          user_id = e.zone.user_id;
          zone_id = e.zone_id;
          zone_name = e.zone.name;
          device_id = e.report.device_id;
          kind = kind;
          lat = e.report.lat;
          lon = e.report.lon;
          occurred_at = e.report.reported_ms;
          created_at = now;
        }
        ∷ new_alerts now es (suc next)
  ]

  unfoldable pub apply_batch : ℤ → List (LocationRecord fl) → Tables fl → Tables fl × Rows fl
  unfolding accepted events upsert_positions upsert_presence delete_presence in_order new_alerts
  apply_batch now rs t =
      let acc = accepted t.device_positions rs in
      let es = events rs t in
      let alerts = new_alerts now (in_order es) t.next_alert in
      (
        record t {
          device_positions = upsert_positions now acc t.device_positions;
          zone_presence = delete_presence es (upsert_presence es t.zone_presence);
          alerts = alerts ++ t.alerts;
          next_alert = t.next_alert + length alerts;
        },
        (acc, alerts),
      )

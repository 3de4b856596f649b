-- ===== src/Processor/Statement/Presence.antt =====
-- The presence of a device in a zone after the statement.
use Prim.Native.String.{String}
use geotrack.Prelude.{
  ◌≡◌, refl, Bool, false, List, [], ◌∷◌, map, Option, none, some, ite, arith, In, here, there,
}
use mathlib.Core.List.{map-append}
use geotrack.Prelude.Int.{ℤ}
use geotrack.Prelude.Dict.{Dict, get, Distinct}
use geotrack.Prelude.Text.{String-discrete as same_id}
use geotrack.Float.{Floats}
use geotrack.Processor.Tables.{
  ZoneId, Key, Key-discrete as same_key, LocationRecord, Geozone, ZonePresence, Tables, Database,
}
use geotrack.Processor.Reports.{reported, Unique, reported-In, select-Unique}
use geotrack.Processor.Transitions.{
  Hit, accepted, entering, is_hit_in, exits, event, is_hit, hits_of, hits, transitions, updates,
}
use geotrack.Processor.Statement.{upsert_presence, events, apply_batch}
use geotrack.Processor.Statement.Events.{
  present, opened, closed, present-upsert_presence, get-upsert_presence, get-delete_presence,
  opened-append, closed-append, is_hit_in-append, opened-entries, closed-entries, opened-exits,
  closed-exits,
}

module _ {fl : Floats} (db : Database fl) where
  abbrev hit_at : LocationRecord fl → Option (Geozone fl) → Bool
  hit_at r none = false
  hit_at r (some z) = is_hit db r z

  is_hit_in-hits_of :
      (id d : String) (r : LocationRecord fl) (zones : Dict ZoneId (Geozone fl))
      → Distinct same_id zones
      → is_hit_in (id, d) (hits_of db r zones)
        ≡ ite (same_id r.device_id d) (hit_at r (get same_id id zones)) false
  unfolding is_hit_in hits_of get
  is_hit_in-hits_of id d r [] u = ground arith
  is_hit_in-hits_of id d r ((j, z) ∷ zones) u = ground (arith, is_hit_in-hits_of id d r zones u.1)

  is_hit_in-unreported :
      (id d : String) (rs : List (LocationRecord fl)) (zones : Dict ZoneId (Geozone fl))
      → Distinct same_id zones
      → reported d rs ≡ false
      → is_hit_in (id, d) (hits db rs zones) ≡ false
  unfolding is_hit_in hits reported
  is_hit_in-unreported id d [] zones u h = refl
  is_hit_in-unreported id d (r ∷ rs) zones u h = ground (
    arith,
    is_hit_in-append (id, d) (hits_of db r zones) (hits db rs zones),
    is_hit_in-hits_of id d r zones u,
    is_hit_in-unreported id d rs zones u,
  )

  is_hit_in-hits :
      (id : String) (r : LocationRecord fl) (rs : List (LocationRecord fl))
      (zones : Dict ZoneId (Geozone fl))
      → Distinct same_id zones
      → Unique rs
      → In r rs
      → is_hit_in (id, r.device_id) (hits db rs zones) ≡ hit_at r (get same_id id zones)
  unfolding is_hit_in hits
  is_hit_in-hits id r [] zones u once m = elim m [ ]
  is_hit_in-hits id r (_ ∷ rs) zones u once here = ground (
    arith,
    is_hit_in-append (id, r.device_id) (hits_of db r zones) (hits db rs zones),
    is_hit_in-hits_of id r.device_id r zones u,
    is_hit_in-unreported id r.device_id rs zones u once.0,
  )
  is_hit_in-hits id r (s ∷ rs) zones u once (there m) = ground (
    arith,
    is_hit_in-append (id, r.device_id) (hits_of db s zones) (hits db rs zones),
    is_hit_in-hits_of id r.device_id s zones u,
    is_hit_in-hits id r rs zones u once.1 m,
    reported-In r rs m,
  )

  module _ (now : ℤ) (rs : List (LocationRecord fl)) (t : Tables fl) where
    abbrev acc : List (LocationRecord fl)
    acc = accepted t.device_positions rs

    abbrev after : Dict Key ZonePresence
    after = (apply_batch db now rs t).0.zone_presence

    abbrev hs : List (Hit fl)
    hs = hits db acc t.geozones

    opened-events : (k : Key) → opened k (events db rs t) ≡ is_hit_in k hs
    unfolding events transitions
    opened-events k =
        rw
          (map-append event (map (entering t.zone_presence) hs)
            (exits acc hs t.geozones t.zone_presence))
          (ground (
            arith,
            opened-append k (map event (map (entering t.zone_presence) hs))
                (map event (exits acc hs t.geozones t.zone_presence)),
            opened-entries k t.zone_presence hs,
            opened-exits hs t.geozones k acc t.zone_presence,
          ))

    closed-events :
        (k : Key)
        → closed k (events db rs t) ≡ closed k (map event (exits acc hs t.geozones t.zone_presence))
    unfolding events transitions
    closed-events k =
        rw
          (map-append event (map (entering t.zone_presence) hs)
            (exits acc hs t.geozones t.zone_presence))
          (ground (
            arith,
            closed-append k (map event (map (entering t.zone_presence) hs))
                (map event (exits acc hs t.geozones t.zone_presence)),
            closed-entries k t.zone_presence hs,
          ))

    -- For a batch with one report of a device, each device whose report is accepted is present
    -- in a zone after the statement exactly if the report's position lies in the zone, whatever
    -- was recorded of it before.
    pub presence-exact :
        (id : ZoneId) (z : Geozone fl) (r : LocationRecord fl)
        → Unique rs
        → Distinct same_id t.geozones
        → get same_id id t.geozones ≡ some z
        → In r acc
        → present (get same_key (id, r.device_id) after) ≡ is_hit db r z
    unfolding apply_batch
    presence-exact id z r once u found m =
        let k : Key = (id, r.device_id) in
        let acc_once : Unique acc =
          unfold accepted in
          select-Unique (λ s. updates (get same_id s.device_id t.device_positions) s) rs once in
        ground (
          arith,
          get-delete_presence k (events db rs t) (upsert_presence (events db rs t) t.zone_presence),
          present-upsert_presence k (events db rs t) t.zone_presence,
          opened-events k,
          closed-events k,
          closed-exits hs t.geozones id r.device_id acc t.zone_presence,
          is_hit_in-hits id r acc t.geozones u acc_once m,
          reported-In r acc m,
        )

    -- A device of which the statement accepts no report stays recorded exactly as it was, in
    -- every zone.
    pub presence-untouched :
        (id : ZoneId) (d : String)
        → Distinct same_id t.geozones
        → reported d acc ≡ false
        → get same_key (id, d) after ≡ get same_key (id, d) t.zone_presence
    unfolding apply_batch
    presence-untouched id d u none_of =
        let k : Key = (id, d) in
        ground (
          arith,
          get-delete_presence k (events db rs t) (upsert_presence (events db rs t) t.zone_presence),
          get-upsert_presence k (events db rs t) t.zone_presence,
          opened-events k,
          closed-events k,
          closed-exits hs t.geozones id d acc t.zone_presence,
          is_hit_in-unreported id d acc t.geozones u none_of,
        )

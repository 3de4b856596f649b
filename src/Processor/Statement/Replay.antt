-- ===== src/Processor/Statement/Replay.antt =====
-- A batch that is applied a second time.
use Prim.Native.String.{String}
use geotrack.Prelude.{
  ◌≡◌, refl, Bool, false, List, [], ◌∷◌, some, arith, In, here, there, inl, inr, Bool-cases, select,
}
use geotrack.Prelude.Int.{ℤ}
use geotrack.Prelude.Dict.{Dict, get, put, get-put}
use geotrack.Prelude.Text.{String-discrete as same_id}
use geotrack.Float.{Floats}
use geotrack.Processor.Tables.{LocationRecord, DevicePosition, Tables, Database}
use geotrack.Processor.Transitions.{
  accepted, upsert_positions, stored, updates, hits, exits, transitions,
}
use geotrack.Processor.Statement.{
  upsert_presence, delete_presence, events, apply_batch, new_alerts, in_order,
}
use geotrack.Processor.Reports.{reported, Unique, select-Unique, In-select, reported-refused}

module _ {fl : Floats} where
  -- what the devices of a batch have stored
  get-upsert_positions_ne :
      (now : ℤ) (d : String) (rs : List (LocationRecord fl)) (p : Dict String (DevicePosition fl))
      → reported d rs ≡ false
      → get same_id d (upsert_positions now rs p) ≡ get same_id d p
  unfolding upsert_positions reported
  get-upsert_positions_ne now d [] p h = refl
  get-upsert_positions_ne now d (r ∷ rs) p h =
      let p' = put same_id r.device_id (stored now r) p in
      ground
        (arith, get-upsert_positions_ne now d rs p', get-put same_id r.device_id d (stored now r) p)

  get-upsert_positions :
      (now : ℤ) (r : LocationRecord fl) (rs : List (LocationRecord fl))
      (p : Dict String (DevicePosition fl))
      → Unique rs
      → In r rs
      → get same_id r.device_id (upsert_positions now rs p) ≡ some (stored now r)
  unfolding upsert_positions
  get-upsert_positions now r [] p u m = elim m [ ]
  get-upsert_positions now r (_ ∷ rs) p u here =
      let p' = put same_id r.device_id (stored now r) p in
      ground (
        arith,
        get-upsert_positions_ne now r.device_id rs p' u.0,
        get-put same_id r.device_id r.device_id (stored now r) p,
      )
  get-upsert_positions now r (s ∷ rs) p u (there m) =
      get-upsert_positions now r rs (put same_id s.device_id (stored now s) p) u.1 m

  select-none :
      (keep : LocationRecord fl → Bool) (rs : List (LocationRecord fl))
      → ((r : LocationRecord fl) → In r rs → keep r ≡ false)
      → select keep rs ≡ []
  select-none keep [] h = refl
  select-none keep (r ∷ rs) h = ground (arith, h r here, select-none keep rs (λ s m. h s (there m)))

  -- the stored rows turn every report of the batch away
  accepted-again :
      (now : ℤ) (rs : List (LocationRecord fl)) (p : Dict String (DevicePosition fl))
      → Unique rs
      → accepted (upsert_positions now (accepted p rs) p) rs ≡ []
  unfolding accepted
  accepted-again now rs p u =
      let keep : LocationRecord fl → Bool = λ r. updates (get same_id r.device_id p) r in
      let acc = select keep rs in
      select-none _ rs (λ r m. elim (Bool-cases (keep r)) [
        | inl k ↦ ground (
          arith,
          get-upsert_positions now r acc p (select-Unique keep rs u) (In-select keep r rs m k),
        )
        | inr k ↦ ground (
          arith,
          get-upsert_positions_ne now r.device_id acc p (reported-refused keep r rs u m k),
        )
      ])

  events-none :
      (db : Database fl) (rs : List (LocationRecord fl)) (t : Tables fl)
      → accepted t.device_positions rs ≡ []
      → events db rs t ≡ []
  unfolding events transitions hits exits
  events-none db rs t h = rw h refl

  apply_batch-none :
      (db : Database fl) (now : ℤ) (rs : List (LocationRecord fl)) (t : Tables fl)
      → accepted t.device_positions rs ≡ []
      → apply_batch db now rs t ≡ (t, ([], []))
  unfolding apply_batch upsert_positions upsert_presence delete_presence new_alerts in_order
  apply_batch-none db now rs t h = ground (arith, h, events-none db rs t h)

  -- A batch with one report of a device that is applied again, at any later time and with nothing
  -- in between, accepts no report, raises no alert and leaves every table as it is.
  pub apply_batch-replayed :
      (db : Database fl) (now later : ℤ) (rs : List (LocationRecord fl)) (t : Tables fl)
      → Unique rs
      → let t' = (apply_batch db now rs t).0 in apply_batch db later rs t' ≡ (t', ([], []))
  unfolding apply_batch
  apply_batch-replayed db now later rs t u =
      apply_batch-none db later rs (apply_batch db now rs t).0
        (accepted-again now rs t.device_positions u)

-- ===== src/Processor/Batch/Latest.antt =====
-- The reports that the statement takes: the newest of each device.
use Prim.Native.String.{String}
use geotrack.Prelude.{
  ◌≡◌, refl, true, false, List, [], ◌∷◌, Option, none, some, ite, if◌then◌else◌, arith, In, here,
  there, inl, inr, Option-cases,
}
use geotrack.Prelude.Int.{leb_ℤ, ltb_ℤ}
use geotrack.Prelude.Dict.{Dict, get, put, get-put, Distinct, Distinct-put, In-get}
use geotrack.Prelude.Text.{String-discrete as same_id}
use geotrack.Float.{Floats}
use geotrack.Processor.Tables.{LocationRecord}
use geotrack.Processor.Reports.{reported, Unique}
use geotrack.Processor.Batch.{keep_newest, newest_of, latest_per_device, values}

module _ {fl : Floats} where
  -- the better of what a device has and one more report of it
  abbrev newer : LocationRecord fl → Option (LocationRecord fl) → Option (LocationRecord fl)
  newer r none = some r
  newer r (some c) = if ltb_ℤ c.reported_ms r.reported_ms then some r else some c

  get-keep_newest :
      (d : String) (r : LocationRecord fl) (m : Dict String (LocationRecord fl))
      → get same_id d (keep_newest r m)
        ≡ ite (same_id r.device_id d) (newer r (get same_id d m)) (get same_id d m)
  unfolding keep_newest
  get-keep_newest d r m = ground (arith, get-put same_id r.device_id d r m)

  -- what a device has is at least as new as a report
  abbrev AtLeast : Option (LocationRecord fl) → LocationRecord fl → Type 0
  AtLeast o r = (s : LocationRecord fl) × (o ≡ some s) × (leb_ℤ r.reported_ms s.reported_ms ≡ true)

  newest_of-keeps :
      (r : LocationRecord fl) (rs : List (LocationRecord fl)) (m : Dict String (LocationRecord fl))
      → AtLeast (get same_id r.device_id m) r
      → AtLeast (get same_id r.device_id (newest_of rs m)) r
  unfolding newest_of
  newest_of-keeps r [] m h = h
  newest_of-keeps r (s ∷ rs) m (c, at, le) =
      newest_of-keeps r rs (keep_newest s m)
        (elim (Option-cases (get same_id r.device_id (keep_newest s m))) [
          | inl e ↦ absurd (ground (arith, get-keep_newest r.device_id s m))
          | inr (b, e) ↦ (b, e, ground (arith, get-keep_newest r.device_id s m))
        ])

  newest_of-AtLeast :
      (r : LocationRecord fl) (rs : List (LocationRecord fl)) (m : Dict String (LocationRecord fl))
      → In r rs
      → AtLeast (get same_id r.device_id (newest_of rs m)) r
  unfolding newest_of
  newest_of-AtLeast r [] m i = elim i [ ]
  newest_of-AtLeast r (_ ∷ rs) m here =
      newest_of-keeps r rs (keep_newest r m)
        (elim (Option-cases (get same_id r.device_id (keep_newest r m))) [
          | inl e ↦ absurd (ground (arith, get-keep_newest r.device_id r m))
          | inr (b, e) ↦ (b, e, ground (arith, get-keep_newest r.device_id r m))
        ])
  newest_of-AtLeast r (s ∷ rs) m (there i) = newest_of-AtLeast r rs (keep_newest s m) i

  -- every entry is filed under its own device
  abbrev Filed : Dict String (LocationRecord fl) → Type 0
  Filed [] = Unit
  Filed ((d, r) ∷ m) = (r.device_id ≡ d) × Filed m

  put-Filed :
      (r : LocationRecord fl) (m : Dict String (LocationRecord fl))
      → Filed m
      → Filed (put same_id r.device_id r m)
  unfolding put
  put-Filed r [] f = (refl, tt)
  put-Filed r ((d, s) ∷ m) f = ground (arith, put-Filed r m f.1)

  newest_of-Filed :
      (rs : List (LocationRecord fl)) (m : Dict String (LocationRecord fl))
      → Filed m × Distinct same_id m
      → Filed (newest_of rs m) × Distinct same_id (newest_of rs m)
  unfolding newest_of
  newest_of-Filed [] m f = f
  newest_of-Filed (r ∷ rs) m f = newest_of-Filed rs (keep_newest r m) (
      unfold keep_newest in
      ground (arith, put-Filed r m f.0, Distinct-put same_id r.device_id r m f.1))

  reported-values :
      (d : String) (m : Dict String (LocationRecord fl))
      → Filed m
      → get same_id d m ≡ none
      → reported d (values m) ≡ false
  unfolding reported get
  reported-values d [] f n = refl
  reported-values d ((e, r) ∷ m) f n = ground (arith, reported-values d m f.1)

  values-Unique :
      (m : Dict String (LocationRecord fl)) → Filed m → Distinct same_id m → Unique (values m)
  values-Unique [] f u = tt
  values-Unique ((d, r) ∷ m) f u = (rw f.0 (reported-values d m f.1 u.0), values-Unique m f.1 u.1)

  In-values :
      (d : String) (r : LocationRecord fl) (m : Dict String (LocationRecord fl))
      → In (d, r) m
      → In r (values m)
  In-values d r [] i = elim i [ ]
  In-values d r (_ ∷ m) here = here
  In-values d r (_ ∷ m) (there i) = there (In-values d r m i)

  get-Filed :
      (d : String) (r : LocationRecord fl) (m : Dict String (LocationRecord fl))
      → Filed m
      → get same_id d m ≡ some r
      → r.device_id ≡ d
  unfolding get
  get-Filed d r [] f e = absurd (ground arith)
  get-Filed d r ((b, s) ∷ m) f e = ground (arith, get-Filed d r m f.1)

-- The reports that are kept have different devices, and for each report of the batch one of the
-- same device is kept that is at least as new.
pub latest_per_device-newest :
    {fl : Floats} (rs : List (LocationRecord fl)) (r : LocationRecord fl)
    → In r rs
    → Unique (latest_per_device rs)
      × (s : LocationRecord fl) × In s (latest_per_device rs)
      × (s.device_id ≡ r.device_id)
      × (leb_ℤ r.reported_ms s.reported_ms ≡ true)
unfolding latest_per_device
latest_per_device-newest {fl} rs r i =
    let m : Dict String (LocationRecord fl) = newest_of rs [] in
    let (filed, once) = newest_of-Filed rs [] (tt, tt) in
    let (s, e, le) = newest_of-AtLeast r rs [] i in
    (
      values-Unique m filed once,
      s,
      In-values r.device_id s m (In-get same_id r.device_id s m e),
      get-Filed r.device_id s m filed e,
      le,
    )

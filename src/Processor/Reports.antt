-- ===== src/Processor/Reports.antt =====
-- The devices of a list of reports.
use Prim.Native.String.{String}
use geotrack.Prelude.{
  ◌≡◌, refl, Bool, true, false, List, [], ◌∷◌, ite, arith, In, here, there, inl, inr, Bool-cases,
  select,
}
use geotrack.Prelude.Text.{String-discrete as same_id}
use geotrack.Float.{Floats}
use geotrack.Processor.Tables.{LocationRecord}

module _ {fl : Floats} where
  -- whether the reports hold one of a device
  unfoldable pub reported : String → List (LocationRecord fl) → Bool
  reported d [] = false
  reported d (r ∷ rs) = ite (same_id r.device_id d) true (reported d rs)

  -- No device stands twice.
  abbrev pub Unique : List (LocationRecord fl) → Type 0
  Unique [] = Unit
  Unique (r ∷ rs) = (reported r.device_id rs ≡ false) × Unique rs

  pub reported-In :
      (r : LocationRecord fl) (rs : List (LocationRecord fl))
      → In r rs
      → reported r.device_id rs ≡ true
  unfolding reported
  reported-In r [] m = elim m [ ]
  reported-In r (_ ∷ rs) here = ground arith
  reported-In r (s ∷ rs) (there m) = ground (arith, reported-In r rs m)

  pub reported-select :
      (d : String) (keep : LocationRecord fl → Bool) (rs : List (LocationRecord fl))
      → reported d rs ≡ false
      → reported d (select keep rs) ≡ false
  unfolding reported
  reported-select d keep [] h = refl
  reported-select d keep (r ∷ rs) h = ground (arith, reported-select d keep rs)

  pub select-Unique :
      (keep : LocationRecord fl → Bool) (rs : List (LocationRecord fl))
      → Unique rs
      → Unique (select keep rs)
  select-Unique keep [] u = tt
  select-Unique keep (r ∷ rs) u = elim (Bool-cases (keep r)) [
    | inl k ↦ rw k (reported-select r.device_id keep rs u.0, select-Unique keep rs u.1)
    | inr k ↦ rw k (select-Unique keep rs u.1)
  ]

  pub In-select :
      (keep : LocationRecord fl → Bool) (r : LocationRecord fl) (rs : List (LocationRecord fl))
      → In r rs
      → keep r ≡ true
      → In r (select keep rs)
  In-select keep r [] m k = elim m [ ]
  In-select keep r (_ ∷ rs) here k = rw k here
  In-select keep r (s ∷ rs) (there m) k = elim (Bool-cases (keep s)) [
    | inl e ↦ rw e (there (In-select keep r rs m k))
    | inr e ↦ rw e (In-select keep r rs m k)
  ]

  pub reported-refused :
      (keep : LocationRecord fl → Bool) (r : LocationRecord fl) (rs : List (LocationRecord fl))
      → Unique rs
      → In r rs
      → keep r ≡ false
      → reported r.device_id (select keep rs) ≡ false
  unfolding reported
  reported-refused keep r [] u m k = elim m [ ]
  reported-refused keep r (_ ∷ rs) u here k =
      ground (arith, reported-select r.device_id keep rs u.0)
  reported-refused keep r (s ∷ rs) u (there m) k =
      ground (arith, reported-refused keep r rs u.1 m k, reported-In r rs m)

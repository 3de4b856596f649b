-- ===== src/Processor/Batch/Split.antt =====
-- The reports that the schema cannot hold.
use geotrack.Prelude.{
  ℕ, suc, zero, ◌+◌, ◌*◌, ◌≡◌, refl, Bool, true, false, ◌↔◌, List, [], ◌∷◌, none, some, arith, In,
  here, there, inl, inr, Option-cases, get_elem?, select,
}
use geotrack.Prelude.Int.{ℤ, pos, ◌+ℤ◌, ◌-ℤ◌}
use geotrack.Float.{Floats}
use geotrack.Processor.Tables.{LocationRecord}
use geotrack.Processor.Batch.{Reason, unstorable_reason, split_from, split_storable}

module _ {fl : Floats} (oldest newest : ℤ) where
  abbrev pub is_storable : LocationRecord fl → Bool
  is_storable r = elim (unstorable_reason oldest newest r) [ none ↦ true | some _ ↦ false ]

  split_from-storable :
      (i : ℕ) (rs : List (LocationRecord fl))
      → (split_from oldest newest i rs).0 ≡ select is_storable rs
  unfolding split_from
  split_from-storable i [] = refl
  split_from-storable i (r ∷ rs) = ground (arith, split_from-storable (suc i) rs)

  -- the rejected report at an offset, with its reason
  abbrev pub IsRejected : List (LocationRecord fl) → ℕ → LocationRecord fl → Reason → Type 0
  IsRejected rs n r why = (get_elem? rs n ≡ some r) × (unstorable_reason oldest newest r ≡ some why)

  IsRejected-step :
      (i n : ℕ) (r s : LocationRecord fl) (why reason : Reason) (rs : List (LocationRecord fl))
      → unstorable_reason oldest newest s ≡ some reason
      → (In (n, r, why) (split_from oldest newest (suc i) rs).1
          → (k : ℕ) × (n ≡ suc i + k) × IsRejected rs k r why)
      → In (n, r, why) ((i, s, reason) ∷ (split_from oldest newest (suc i) rs).1)
      → (k : ℕ) × (n ≡ i + k) × IsRejected (s ∷ rs) k r why
  IsRejected-step i n r s why reason rs e ih here = (0, omega arith, (refl, e))
  IsRejected-step i n r s why reason rs e ih (there m) =
      let (k, at, found) = ih m in (suc k, omega (arith, at), found)

  split_from_sound :
      (i n : ℕ) (r : LocationRecord fl) (why : Reason) (rs : List (LocationRecord fl))
      → In (n, r, why) (split_from oldest newest i rs).1
      → (k : ℕ) × (n ≡ i + k) × IsRejected rs k r why
  unfolding split_from
  split_from_sound i n r why [] m = elim m [ ]
  split_from_sound i n r why (s ∷ rs) m = elim (Option-cases (unstorable_reason oldest newest s)) [
    | inl e ↦
        let (k, at, found) = split_from_sound (suc i) n r why rs (rw (e, split_from) at m) in
        (suc k, omega (arith, at), found)
    | inr (reason, e) ↦
        IsRejected-step i n r s why reason rs e (split_from_sound (suc i) n r why rs)
          (rw (e, split_from) at m)
  ]

  split_from_complete :
      (i n : ℕ) (r : LocationRecord fl) (why : Reason) (rs : List (LocationRecord fl))
      → IsRejected rs n r why
      → (m : ℕ) → m ≡ i + n
      → In (m, r, why) (split_from oldest newest i rs).1
  unfolding split_from
  split_from_complete i n r why [] h m at = absurd (ground arith)
  split_from_complete i zero r why (s ∷ rs) h m at =
      let same : s ≡ r = ground arith in
      let first : m ≡ i = omega (arith, at) in
      let why_s : unstorable_reason oldest newest s ≡ some why = rw same h.1 in
      rw (← same, first, why_s, split_from) here
  split_from_complete i (suc n) r why (s ∷ rs) h m at =
      let rest = split_from_complete (suc i) n r why rs h m (omega (arith, at)) in
      elim (Option-cases (unstorable_reason oldest newest s)) [
        | inl e ↦ rw (e, split_from) rest
        | inr (reason, e) ↦ rw (e, split_from) (there rest)
      ]

-- The reports of a batch that go to the database are, in their order, those that the schema can
-- hold; and the rejected ones are exactly the others, each with its place in the batch and the
-- reason why it cannot be held.
pub split_storable_iff :
    {fl : Floats} (now : ℤ) (retention_days skew_s : ℕ) (rs : List (LocationRecord fl)) (n : ℕ)
    (r : LocationRecord fl) (why : Reason)
    → let oldest = now -ℤ pos (retention_days * 86_400_000) in
      let newest = now +ℤ pos (skew_s * 1_000) in
      let split = split_storable now retention_days skew_s rs in
      (split.0 ≡ select (is_storable oldest newest) rs)
      × (In (n, r, why) split.1 ↔ IsRejected oldest newest rs n r why)
unfolding split_storable
split_storable_iff {fl} now retention_days skew_s rs n r why =
    let oldest = now -ℤ pos (retention_days * 86_400_000) in
    let newest = now +ℤ pos (skew_s * 1_000) in
    (
      split_from-storable oldest newest 0 rs,
      (
        λ m.
            let (k, at, found) = split_from_sound oldest newest 0 n r why rs m in
            let same : k ≡ n = omega (arith, at) in rw (← same) found,
        λ found. split_from_complete oldest newest 0 n r why rs found n (omega arith),
      ),
    )

-- ===== src/Ingest/Schemas/Limits.antt =====
-- What a payload that was parsed holds, and what the check of its times found.
use geotrack.Prelude.{
  ℕ, suc, ◌+◌, ◌≤◌, ◌≡◌, refl, Bool, true, false, List, [], ◌∷◌, Option, none, some, All,
  Bool-cases, get_elem?, take, length, arith, if◌then◌else◌, inl, inr,
}
use geotrack.Prelude.Int.{ℤ, ◌<ℤ◌, ltb_ℤ, ◌+ℤ◌, ◌-ℤ◌}
use geotrack.Prelude.Result.{Result, ok, raise, ◌>>=◌, Returns, Returns-bind}
use geotrack.Prelude.Text.{Bytes}
use geotrack.Float.{Floats}
use geotrack.Realtime.Protocol.{codes}
use geotrack.Ingest.Schemas.{
  LocationReport, IngestError, ValidationError, too_old, too_new, Adapters, Parsed, lstrip,
  starts_with, contains, translated, validate, not_empty, parse_stripped, parse_ingest_payload,
  check_from, check_report_window,
}

abbrev pub AtMost : {fl : Floats} → ℕ → Parsed fl → Type 0
AtMost n p = length p.1 ≤ n

-- pydantic's `max_length` is honoured.
abbrev pub Bounded : {fl : Floats} → Adapters fl → Type 0
Bounded {fl} adapters =
    (n : ℕ) (raw : Bytes)
    → Returns (λ rs. length rs ≤ n) (adapters.items n raw)
      × Returns (AtMost n) (adapters.envelope n raw)

abbrev pub Fits : {fl : Floats} → ℕ → Parsed fl → Type 0
Fits max_items p = (1 ≤ length p.1) × (length p.1 ≤ max_items)

if-Returns :
    {E A : Type 0} (P : A → Type 0) (b : Bool) (x y : Result E A)
    → Returns P x
    → Returns P y
    → Returns P (if b then x else y)
if-Returns P true x y h k = h
if-Returns P false x y h k = k

Returns-translated :
    {A : Type 0} (P : A → Type 0) (n : ℕ) (r : Result ValidationError A)
    → Returns P r
    → Returns P (translated n r)
unfolding translated
Returns-translated P n (ok a) h = h
Returns-translated P n (raise e) h = tt

not_empty-Fits :
    {fl : Floats} (n : ℕ) (p : Parsed fl) → length p.1 ≤ n → Returns (Fits n) (not_empty p)
not_empty-Fits n (seq, []) h = tt
not_empty-Fits n (seq, r ∷ rs) h = (omega arith, h)

abbrev pub NonEmpty : {fl : Floats} → Parsed fl → Type 0
NonEmpty p = 1 ≤ length p.1

not_empty-NonEmpty :
    {fl : Floats} (r : Result IngestError (Parsed fl)) → Returns NonEmpty (r >>= not_empty)
not_empty-NonEmpty (ok (seq, [])) = tt
not_empty-NonEmpty (ok (seq, r ∷ rs)) = omega arith
not_empty-NonEmpty (raise e) = tt

-- What is parsed is never empty, whatever the adapters do.
pub parse_ingest_payload-NonEmpty :
    {fl : Floats} (adapters : Adapters fl) (n : ℕ) (raw : Bytes)
    → Returns NonEmpty (parse_ingest_payload adapters n raw)
unfolding parse_ingest_payload
parse_ingest_payload-NonEmpty adapters n raw = stripped (lstrip raw)
  where
    stripped : (cs : Bytes) → Returns NonEmpty (parse_stripped adapters n raw cs)
    stripped [] = unfold parse_stripped in tt
    stripped (c ∷ cs) =
        unfold parse_stripped in
        not_empty-NonEmpty (translated n (validate adapters n raw (c ∷ cs)))

module _ {fl : Floats} (adapters : Adapters fl) (bounded : Bounded adapters) where
  validate-bounded :
      (n : ℕ) (raw stripped : Bytes) → 1 ≤ n → Returns (AtMost n) (validate adapters n raw stripped)
  unfolding validate
  validate-bounded n raw stripped h =
      if-Returns (AtMost n) (starts_with (codes "[") stripped) _ _
        (Returns-bind (λ rs. length rs ≤ n) (AtMost n) (adapters.items n raw) (λ rs. ok (none, rs))
          ((bounded n raw).0) (λ rs k. k))
        (if-Returns (AtMost n) (contains (codes "\"items\"") stripped) _ _ ((bounded n raw).1)
          (single (adapters.report raw)))
    where
      single :
          (r : Result ValidationError (LocationReport fl))
          → Returns (AtMost n) (do report ← r; ok (none, report ∷ []))
      single (ok report) = h
      single (raise e) = tt

  parse_stripped-Fits :
      (n : ℕ) (raw stripped : Bytes)
      → 1 ≤ n
      → Returns (Fits n) (parse_stripped adapters n raw stripped)
  unfolding parse_stripped
  parse_stripped-Fits n raw [] h = tt
  parse_stripped-Fits n raw (c ∷ cs) h =
      Returns-bind (AtMost n) (Fits n) (translated n (validate adapters n raw (c ∷ cs))) not_empty
        (Returns-translated (AtMost n) n (validate adapters n raw (c ∷ cs))
          (validate-bounded n raw (c ∷ cs) h))
        (not_empty-Fits n)

  -- If the library's adapters keep to the limit of a batch that they are built with, and the limit
  -- is at least one, then a payload that is accepted, as a single report, an array or an envelope,
  -- holds at least one report and at most the limit.
  pub parse_ingest_payload-Fits :
      (n : ℕ) (raw : Bytes) → 1 ≤ n → Returns (Fits n) (parse_ingest_payload adapters n raw)
  unfolding parse_ingest_payload
  parse_ingest_payload-Fits n raw h = parse_stripped-Fits n raw (lstrip raw) h

abbrev pub InWindow : {fl : Floats} → ℤ → ℤ → LocationReport fl → Type 0
InWindow oldest newest r = (ltb_ℤ r.timestamp oldest ≡ false) × (ltb_ℤ newest r.timestamp ≡ false)

-- The verdict on reports from an index on: the first report outside, and on which side.
abbrev pub Verdict :
    {fl : Floats} → ℤ → ℤ → ℕ → List (LocationReport fl) → Option IngestError → Type 0
Verdict oldest newest k rs none = All (InWindow oldest newest) rs
Verdict {fl} oldest newest k rs (some (too_old i)) =
    (j : ℕ) × (r : LocationReport fl) × (i ≡ k + j)
    × All (InWindow oldest newest) (take j rs)
    × (get_elem? rs j ≡ some r)
    × r.timestamp <ℤ oldest
Verdict {fl} oldest newest k rs (some (too_new i)) =
    (j : ℕ) × (r : LocationReport fl) × (i ≡ k + j)
    × All (InWindow oldest newest) (take j rs)
    × (get_elem? rs j ≡ some r)
    × newest <ℤ r.timestamp
Verdict oldest newest k rs (some _) = ⊥

module _ {fl : Floats} (oldest newest : ℤ) where
  Verdict-later :
      (k : ℕ) (r : LocationReport fl) (rs : List (LocationReport fl)) (e : Option IngestError)
      → InWindow oldest newest r
      → Verdict oldest newest (suc k) rs e
      → Verdict oldest newest k (r ∷ rs) e
  Verdict-later k r rs none w v = (w, v)
  Verdict-later k r rs (some (too_old i)) w (j, s, at, before, found, late) =
      (suc j, s, omega (arith, at), (w, before), found, late)
  Verdict-later k r rs (some (too_new i)) w (j, s, at, before, found, late) =
      (suc j, s, omega (arith, at), (w, before), found, late)
  Verdict-later k r rs (some _) w v = v

  check_from-Verdict :
      (k : ℕ) (rs : List (LocationReport fl))
      → Verdict oldest newest k rs (check_from oldest newest k rs)
  unfolding check_from
  check_from-Verdict k [] = tt
  check_from-Verdict k (r ∷ rs) = elim (Bool-cases (ltb_ℤ r.timestamp oldest)) [
    | inl e ↦ rw e (0, r, omega arith, tt, refl, ground (arith, e))
    | inr e ↦ elim (Bool-cases (ltb_ℤ newest r.timestamp)) [
      | inl f ↦ rw (e, f) (0, r, omega arith, tt, refl, ground (arith, f))
      | inr f ↦
          rw (e, f)
            (Verdict-later k r rs (check_from oldest newest (suc k) rs) (e, f)
              (check_from-Verdict (suc k) rs))
    ]
  ]

-- The check of a batch's times against the window from `now - max_age` to `now + max_future`: when
-- it raises nothing, every report is in the window; when it raises, the index it names is that of
-- a report on the side it names, and every report before it is in the window.
pub check_report_window-Verdict :
    {fl : Floats} (now max_age max_future : ℤ) (reports : List (LocationReport fl))
    → Verdict
        (now -ℤ max_age)
        (now +ℤ max_future)
        0
        reports
        (check_report_window now max_age max_future reports)
unfolding check_report_window
check_report_window-Verdict now max_age max_future reports =
    check_from-Verdict (now -ℤ max_age) (now +ℤ max_future) 0 reports

-- ===== src/Ingest/Schemas.antt =====
-- src/geotrack/schemas/ingest.py: parsing of a payload, and the window of its times. pydantic, which
-- reads reports from JSON, is a parameter.
pub mod Limits
use Prim.Native.String.{String}
use geotrack.Prelude.{
  ℕ, suc, ◌+◌, ◌*◌, max, Bool, true, false, ◌&&◌, ◌||◌, List, [], ◌∷◌, Option, none, some,
  if◌then◌else◌, length, leb, ltb, ◌==◌,
}
use geotrack.Prelude.Int.{ℤ, ltb_ℤ, ◌+ℤ◌, ◌-ℤ◌}
use geotrack.Prelude.Result.{Result, ok, raise, ◌>>=◌}
use geotrack.Prelude.Text.{Bytes}
use geotrack.Float.{Floats}
use geotrack.Realtime.Protocol.{codes}

abbrev pub max_report_bytes : ℕ
max_report_bytes = 256

abbrev pub min_payload_bytes : ℕ
min_payload_bytes = 8_192

-- `timestamp` counts microseconds, as a `datetime` does.
pub record LocationReport (fl : Floats) : Type 0 where
  pub device_id : String
  pub latitude : fl.F
  pub longitude : fl.F
  pub timestamp : ℤ

-- `ValidationError` without a length error, `BatchTooLargeError`, the two `ValueError`s, and
-- `ReportWindowError`
pub data IngestError : Type 0 where
  invalid : IngestError
  too_large : ℕ → ℕ → IngestError
  empty_payload no_reports : IngestError
  too_old too_new : ℕ → IngestError

-- pydantic's `ValidationError`: a list too long with its length if it says so, or another
pub data ValidationError : Type 0 where
  too_long : Option ℕ → ValidationError
  other : ValidationError

-- The three adapters, the first two with the limit of a batch.
pub record Adapters (fl : Floats) : Type 0 where
  pub items : ℕ → Bytes → Result ValidationError (List (LocationReport fl))
  pub envelope : ℕ → Bytes → Result ValidationError (Option ℤ × List (LocationReport fl))
  pub report : Bytes → Result ValidationError (LocationReport fl)

unfoldable pub max_payload_bytes : ℕ → ℕ
max_payload_bytes max_items = max min_payload_bytes (max_items * max_report_bytes)

-- Python's whitespace in bytes
abbrev pub is_space : ℕ → Bool
is_space c = c == 32 || (leb 9 c && leb c 13)

abbrev pub lstrip : Bytes → Bytes
lstrip [] = []
lstrip (c ∷ cs) = let rest = lstrip cs in if is_space c then rest else c ∷ cs

abbrev pub starts_with : Bytes → Bytes → Bool
starts_with [] cs = true
starts_with (p ∷ ps) [] = false
starts_with (p ∷ ps) (c ∷ cs) = let rest = starts_with ps cs in if p == c then rest else false

-- `part in text`
abbrev pub contains : Bytes → Bytes → Bool
contains part [] = starts_with part []
contains part (c ∷ cs) =
    let rest = contains part cs in if starts_with part (c ∷ cs) then true else rest

-- `_batch_limit_error`, as the handler of a `ValidationError` uses it
unfoldable pub limit_error : ℕ → ValidationError → IngestError
limit_error limit (too_long (some offered)) = too_large offered limit
limit_error limit (too_long none) = too_large (limit + 1) limit
limit_error limit other = invalid

abbrev pub Parsed : Floats → Type 0
Parsed fl = Option ℤ × List (LocationReport fl)

unfoldable pub translated : {A : Type 0} → ℕ → Result ValidationError A → Result IngestError A
unfolding limit_error
translated limit (ok a) = ok a
translated limit (raise e) = raise (limit_error limit e)

abbrev pub not_empty : {fl : Floats} → Parsed fl → Result IngestError (Parsed fl)
not_empty (seq, []) = raise no_reports
not_empty (seq, r ∷ reports) = ok (seq, r ∷ reports)

module _ {fl : Floats} (adapters : Adapters fl) where
  -- the branch of the payload's shape, on the payload without its leading space
  unfoldable pub validate : ℕ → Bytes → Bytes → Result ValidationError (Parsed fl)
  validate max_items raw stripped =
      if starts_with (codes "[") stripped
      then (do reports ← adapters.items max_items raw; ok (none, reports))
      else if contains (codes "\"items\"") stripped
      then adapters.envelope max_items raw
      else (do report ← adapters.report raw; ok (none, report ∷ []))

  unfoldable pub parse_stripped : ℕ → Bytes → Bytes → Result IngestError (Parsed fl)
  unfolding translated validate
  parse_stripped max_items raw [] = raise empty_payload
  parse_stripped max_items raw (c ∷ stripped) = do
    parsed ← translated max_items (validate max_items raw (c ∷ stripped))
    not_empty parsed

  unfoldable pub parse_ingest_payload : ℕ → Bytes → Result IngestError (Parsed fl)
  unfolding parse_stripped
  parse_ingest_payload max_items raw = parse_stripped max_items raw (lstrip raw)

-- the loop of `check_report_window`, from an index; `none` when it ends
unfoldable pub check_from :
    {fl : Floats} → ℤ → ℤ → ℕ → List (LocationReport fl) → Option IngestError
check_from oldest newest index [] = none
check_from oldest newest index (r ∷ reports) =
    let rest = check_from oldest newest (suc index) reports in
    if ltb_ℤ r.timestamp oldest
    then some (too_old index)
    else if ltb_ℤ newest r.timestamp
    then some (too_new index)
    else rest

unfoldable pub check_report_window :
    {fl : Floats} → ℤ → ℤ → ℤ → List (LocationReport fl) → Option IngestError
unfolding check_from ◌+ℤ◌ ◌-ℤ◌
check_report_window now max_age max_future reports =
    check_from (now -ℤ max_age) (now +ℤ max_future) 0 reports

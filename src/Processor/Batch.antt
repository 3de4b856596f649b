-- ===== src/Processor/Batch.antt =====
-- src/geotrack/processor/batch.py: what the batch does in Python, around its SQL statements. Each
-- attempt of a transaction is an answer of the database: an error with its SQLSTATE, if it has one,
-- or the tables as the transaction finds them once it holds the shard's lock.
pub mod Latest
pub mod Retry
pub mod Split
use Prim.Native.Char.{code}
use Prim.Native.String.{String}
use geotrack.Prelude.{
  ℕ, suc, zero, ◌+◌, ◌-◌, ◌*◌, Bool, true, false, ◌&&◌, ◌||◌, not, List, [], ◌∷◌, Option, none,
  some, if◌then◌else◌, map, length, leb, ltb, ◌==◌,
}
use geotrack.Prelude.Int.{ℤ, pos, ltb_ℤ, ◌+ℤ◌, ◌-ℤ◌}
use geotrack.Prelude.Dict.{Dict, get, put}
use geotrack.Prelude.Index.{member}
use geotrack.Prelude.Result.{Result, ok, raise}
use geotrack.Prelude.Text.{Bytes, String-discrete}
use geotrack.Float.{Floats}
use geotrack.Realtime.Hub.{PositionItem}
use geotrack.Realtime.Protocol.{codes}
use geotrack.Processor.Tables.{LocationRecord, Alert, Tables, Database}
use geotrack.Processor.Statement.{Rows, insert_history, apply_batch}

abbrev pub max_attempts_default : ℕ
max_attempts_default = 5

-- `BATCH_RETRYABLE_SQLSTATES`
abbrev pub retryable_sqlstates : List String
retryable_sqlstates = "40001" ∷ "40P01" ∷ "23503" ∷ "55P03" ∷ []

unfoldable pub should_retry : Option String → ℕ → ℕ → Bool
unfolding member String-discrete
should_retry none attempt max_attempts = false
should_retry (some sqlstate) attempt max_attempts =
    member String-discrete sqlstate retryable_sqlstates && ltb attempt max_attempts

-- the class `[A-Za-z0-9._:-]`
abbrev pub is_id_char : ℕ → Bool
is_id_char c =
    (leb b'A' c && leb c b'Z')
    || ((leb b'a' c && leb c b'z')
        || ((leb b'0' c && leb c b'9') || (c == b'.' || (c == b'_' || (c == b':' || c == b'-')))))

abbrev pub all_id_chars : Bytes → Bool
all_id_chars [] = true
all_id_chars (c ∷ cs) = is_id_char c && all_id_chars cs

-- `DEVICE_ID_RE.fullmatch`
unfoldable pub is_device_id : String → Bool
is_device_id d = all_id_chars (codes d) && (leb 1 (length (codes d)) && leb (length (codes d)) 64)

pub data Reason : Type 0 where
  bad_device_id too_old too_new : Reason

abbrev pub Rejected : Floats → Type 0
Rejected fl = ℕ × LocationRecord fl × Reason

pub record BatchResult (fl : Floats) : Type 0 where
  pub accepted : List (PositionItem fl)
  pub alerts : List (Alert fl)
  pub stale : ℕ
  pub rejected : List (Rejected fl)

-- `raise` is a `DBAPIError` with its SQLSTATE.
abbrev pub Answer : Type 0 → Type 0
Answer A = Result (Option String) A

-- The loop of `apply`, after `attempt` failures: the answer of the last attempt, or `none` out
-- of fuel.
unfoldable pub attempt_from : {A : Type 0} → (ℕ → Answer A) → ℕ → ℕ → ℕ → Option (Answer A)
attempt_from answers max_attempts zero attempt = none
attempt_from answers max_attempts (suc fuel) attempt =
    let again = attempt_from answers max_attempts fuel (suc attempt) in
    elim (answers attempt) [
      | ok t ↦ some (ok t)
      | raise sqlstate ↦
          if should_retry sqlstate (suc attempt) max_attempts then again else some (raise sqlstate)
    ]

module _ {fl : Floats} where
  -- `newest`, after one more record
  unfoldable pub keep_newest :
      LocationRecord fl → Dict String (LocationRecord fl) → Dict String (LocationRecord fl)
  keep_newest r newest = elim (get String-discrete r.device_id newest) [
    | none ↦ put String-discrete r.device_id r newest
    | some current ↦
        if ltb_ℤ current.reported_ms r.reported_ms
        then put String-discrete r.device_id r newest
        else newest
  ]

  unfoldable pub newest_of :
      List (LocationRecord fl) → Dict String (LocationRecord fl) → Dict String (LocationRecord fl)
  unfolding keep_newest
  newest_of [] newest = newest
  newest_of (r ∷ rs) newest = newest_of rs (keep_newest r newest)

  abbrev pub values : Dict String (LocationRecord fl) → List (LocationRecord fl)
  values d = map (λ e. e.1) d

  unfoldable pub latest_per_device : List (LocationRecord fl) → List (LocationRecord fl)
  unfolding newest_of
  latest_per_device rs = values (newest_of rs [])

  unfoldable pub unstorable_reason : ℤ → ℤ → LocationRecord fl → Option Reason
  unfolding is_device_id
  unstorable_reason oldest newest r =
      if not (is_device_id r.device_id)
      then some bad_device_id
      else if ltb_ℤ r.reported_ms oldest
      then some too_old
      else if ltb_ℤ newest r.reported_ms
      then some too_new
      else none

  -- the loop of `_split_storable`, from the index given
  unfoldable pub split_from :
      ℤ → ℤ → ℕ → List (LocationRecord fl) → List (LocationRecord fl) × List (Rejected fl)
  split_from oldest newest index [] = ([], [])
  split_from oldest newest index (r ∷ rs) =
      let (storable, rejected) = split_from oldest newest (suc index) rs in
      elim (unstorable_reason oldest newest r) [
        | none ↦ (r ∷ storable, rejected)
        | some reason ↦ (storable, (index, r, reason) ∷ rejected)
      ]

  -- `_split_storable` at the time `now`
  unfoldable pub split_storable :
      ℤ → ℕ → ℕ → List (LocationRecord fl) → List (LocationRecord fl) × List (Rejected fl)
  unfolding split_from ◌+ℤ◌ ◌-ℤ◌
  split_storable now retention_days max_future_skew_s rs =
      split_from (now -ℤ pos (retention_days * 86_400_000)) (now +ℤ pos (max_future_skew_s * 1_000))
        0 rs

  -- One transaction: the archive takes every report, the statement the newest of each device.
  unfoldable pub apply_once :
      Database fl
      → ℤ
      → List (LocationRecord fl)
      → List (LocationRecord fl)
      → Tables fl
      → Tables fl × Rows fl
  unfolding insert_history apply_batch
  apply_once db now storable deduped t =
      apply_batch db now deduped
        (record t { location_history = insert_history storable t.location_history })

  abbrev pub position_item : LocationRecord fl → PositionItem fl
  position_item r = record {
    device_id = r.device_id;
    lat = r.lat;
    lon = r.lon;
    reported_ms = r.reported_ms;
  }

  -- the result of a transaction that commits, with the tables as it leaves them
  unfoldable pub committed :
      List (LocationRecord fl)
      → List (Rejected fl)
      → Tables fl × Rows fl
      → BatchResult fl × Option (Tables fl)
  committed storable rejected (t, (accepted, alerts)) = (
    record {
      accepted = map position_item accepted;
      alerts = alerts;
      stale = length storable - length accepted;
      rejected = rejected;
    },
    some t,
  )

  -- the rest of `apply` once a transaction is through, or has failed for good
  unfoldable pub finished :
      Database fl
      → ℤ
      → List (LocationRecord fl)
      → List (Rejected fl)
      → Option (Answer (Tables fl))
      → Option (Answer (BatchResult fl × Option (Tables fl)))
  finished db now storable rejected none = none
  finished db now storable rejected (some (raise e)) = some (raise e)
  finished db now storable rejected (some (ok t)) =
      some (
        ok
          (committed storable rejected (apply_once db now storable (latest_per_device storable) t)))

  -- `apply` of the reports that `_split_storable` separated: with none storable, the database is
  -- not asked. `none` is out of fuel.
  unfoldable pub apply_storable :
      Database fl
      → ℤ
      → ℕ
      → (ℕ → Answer (Tables fl))
      → List (LocationRecord fl) × List (Rejected fl)
      → Option (Answer (BatchResult fl × Option (Tables fl)))
  apply_storable db now max_attempts answers ([], rejected) =
      some (ok (record { accepted = []; alerts = []; stale = 0; rejected = rejected }, none))
  apply_storable db now max_attempts answers (r ∷ storable, rejected) =
      finished db now (r ∷ storable) rejected
        (attempt_from answers max_attempts (suc max_attempts) 0)

  unfoldable pub apply :
      Database fl
      → ℤ
      → ℕ
      → ℕ
      → ℕ
      → (ℕ → Answer (Tables fl))
      → List (LocationRecord fl)
      → Option (Answer (BatchResult fl × Option (Tables fl)))
  apply db now retention_days max_future_skew_s max_attempts answers rs =
      apply_storable db now max_attempts answers
        (split_storable now retention_days max_future_skew_s rs)

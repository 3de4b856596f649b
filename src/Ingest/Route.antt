-- ===== src/Ingest/Route.antt =====
-- src/geotrack/api/routes/ingest.py: `POST /api/v1/ingest/locations`.
pub mod Answers
use geotrack.Prelude.{
  ℕ, ◌+◌, ◌-◌, ◌*◌, ◌/◌, ◌%◌, max, Bool, true, false, ◌&&◌, ◌||◌, List, [], ◌∷◌, ◌++◌, Option, none,
  some, if◌then◌else◌, length, leb, ltb, ◌==◌,
}
use geotrack.Prelude.Int.{ℤ, pos, ltb_ℤ, ◌*ℤ◌}
use geotrack.Prelude.Result.{Result, ok, raise, ◌>>=◌}
use geotrack.Prelude.Text.{Bytes}
use geotrack.Float.{Floats}
use geotrack.Ingest.Backlog.{BacklogMonitor, retry_after_ms}
use geotrack.Ingest.Key.{verify_ingest_key}
use geotrack.Ingest.Schemas.{
  LocationReport, IngestError, Adapters, Parsed, max_payload_bytes, parse_ingest_payload,
  check_report_window,
}
use geotrack.Ingest.Service.{
  http, validation, window, auth, SubmitError, throttled_for, redis_error, not_positive, Outcome,
  Edge, Service, count_rejected, submit,
}
use geotrack.Ingest.Device.{offered}

-- the `ProblemError`s, without their texts, and the `ValueError` of `shard_for`, which is a 500
pub data Problem : Type 0 where
  unauthorized : Problem
  -- the header `Retry-After` and `retry_after_ms`
  ingest_throttled : ℕ → ℕ → Problem
  payload_too_large : ℕ → Problem
  bad_length : Problem
  client_disconnected : Problem
  validation_error : IngestError → Problem
  ingest_unavailable internal : Problem

abbrev pub status : Problem → ℕ
status unauthorized = 401
status (ingest_throttled seconds ms) = 503
status (payload_too_large ceiling) = 413
status bad_length = 400
status client_disconnected = 408
status (validation_error error) = 422
status ingest_unavailable = 503
status internal = 500

-- `Content-Length`: not there, not an `int`, or a number
pub data Declared : Type 0 where
  undeclared not_a_number : Declared
  bytes : ℤ → Declared

-- `request.stream()`: its chunks, and whether it ends with `ClientDisconnect`
pub data Stream : Type 0 where
  complete lost : Stream
  chunk : Bytes → Stream → Stream

-- What the handler sees of a request, and of the world while it runs.
pub record Request : Type 0 where
  pub key : Option (List ℕ)
  pub declared : Declared
  pub stream : Stream
  pub gate : BacklogMonitor
  pub gate_at_submit : BacklogMonitor
  pub utc_now : ℤ
  pub now_ms : ℤ
  pub outcome : Outcome

pub record Settings (fl : Floats) : Type 0 where
  pub utf_8 : List ℕ → Bytes
  pub ingest_api_key : Bytes
  pub adapters : Adapters fl
  pub service : Service fl
  pub ingest_max_batch : ℕ
  pub history_retention_days : ℕ
  pub ingest_max_future_skew_s : ℕ

-- Python's `round(ms / 1000)`: to the nearest, and to the even one of two that are as near
unfoldable pub round_seconds : ℕ → ℕ
round_seconds ms =
    if ltb 500 (ms % 1_000) || (ms % 1_000 == 500 && ms / 1_000 % 2 == 1)
    then ms / 1_000 + 1
    else ms / 1_000

unfoldable pub throttled_problem : ℕ → Problem
unfolding round_seconds
throttled_problem ms = ingest_throttled (max 1 (round_seconds ms)) ms

-- what `_check_declared_length` raises, if anything
unfoldable pub check_declared_length : ℕ → Declared → Option Problem
check_declared_length ceiling undeclared = none
check_declared_length ceiling not_a_number = some bad_length
check_declared_length ceiling (bytes n) =
    if ltb_ℤ (pos ceiling) n then some (payload_too_large ceiling) else none

-- the loop over the stream, from what has been read
unfoldable pub read_from : ℕ → Bytes → Stream → Result Problem Bytes
read_from ceiling body complete = ok body
read_from ceiling body lost = raise client_disconnected
read_from ceiling body (chunk c stream) =
    let rest = read_from ceiling (body ++ c) stream in
    if ltb ceiling (length (body ++ c)) then raise (payload_too_large ceiling) else rest

unfoldable pub read_checked : ℕ → Option Problem → Stream → Result Problem Bytes
unfolding read_from
read_checked ceiling (some problem) stream = raise problem
read_checked ceiling none stream = read_from ceiling [] stream

unfoldable pub read_bounded_body : ℕ → Request → Result Problem Bytes
unfolding check_declared_length read_checked max_payload_bytes
read_bounded_body max_batch request =
    read_checked (max_payload_bytes max_batch)
      (check_declared_length (max_payload_bytes max_batch) request.declared) request.stream

-- the days kept and the seconds allowed, in microseconds
abbrev pub report_window : {fl : Floats} → Settings fl → ℤ × ℤ
report_window settings = (
  pos (settings.history_retention_days * 86_400_000_000),
  pos (settings.ingest_max_future_skew_s * 1_000_000),
)

-- the answer and the service's counters and streams
abbrev pub Answer : Type 0
Answer = Result Problem ℕ × Edge

abbrev pub answer_of : Result SubmitError ℕ × Edge → Answer
answer_of (ok accepted, edge) = (ok accepted, edge)
answer_of (raise (throttled_for ms), edge) = (raise (throttled_problem ms), edge)
answer_of (raise redis_error, edge) = (raise ingest_unavailable, edge)
answer_of (raise not_positive, edge) = (raise internal, edge)

module _ {fl : Floats} (settings : Settings fl) where
  unfoldable pub submit_checked :
      Request → List (LocationReport fl) → Option IngestError → Edge → Answer
  unfolding submit count_rejected throttled_problem
  submit_checked request reports (some error) s =
      (raise (validation_error error), count_rejected (length reports) http window s)
  submit_checked request reports none s =
      answer_of (
        submit settings.service request.gate_at_submit request.now_ms request.outcome reports http
          s)

  unfoldable pub submit_parsed : Request → Result IngestError (Parsed fl) → Edge → Answer
  unfolding submit_checked check_report_window count_rejected
  submit_parsed request (raise error) s =
      (raise (validation_error error), count_rejected (offered error) http validation s)
  submit_parsed request (ok (seq, reports)) s =
      submit_checked request reports
        (check_report_window request.utc_now (report_window settings).0 (report_window settings).1
          reports)
        s

  unfoldable pub submit_body : Request → Result Problem Bytes → Edge → Answer
  unfolding submit_parsed parse_ingest_payload
  submit_body request (raise problem) s = (raise problem, s)
  submit_body request (ok raw) s =
      submit_parsed request (parse_ingest_payload settings.adapters settings.ingest_max_batch raw) s

  unfoldable pub ingest_locations : Request → Edge → Answer
  unfolding submit_body read_bounded_body throttled_problem retry_after_ms
  ingest_locations request s =
      if request.gate.throttled
      then (raise (throttled_problem (retry_after_ms request.gate)), s)
      else submit_body request (read_bounded_body settings.ingest_max_batch request) s

  -- the route with its dependency `require_ingest_key`
  unfoldable pub require_ingest_key : Request → Edge → Answer
  unfolding ingest_locations verify_ingest_key
  require_ingest_key request s =
      if verify_ingest_key settings.utf_8 settings.ingest_api_key request.key
      then ingest_locations request s
      else (raise unauthorized, record s { rejected = s.rejected ++ ((http, auth, 1) ∷ []) })

-- ===== src/Ingest/Route/Answers.antt =====
-- What a request reads, and what its answer says of the reports.
use geotrack.Prelude.{
  ℕ, ◌+◌, ◌*◌, ◌<◌, ◌≤◌, max, ◌≡◌, refl, sym, ◌∙◌, List, [], ◌∷◌, ◌++◌, Option, none, some, length,
  ltb, Bool-cases, inl, inr, arith,
}
use mathlib.Core.List.{append-nil, append_assoc}
use geotrack.Prelude.Result.{Result, ok, raise, Returns}
use geotrack.Prelude.Text.{Bytes}
use geotrack.Float.{Floats}
use geotrack.Ingest.Backlog.{BacklogMonitor, retry_after_ms}
use geotrack.Ingest.Schemas.{LocationReport, IngestError, Parsed, max_payload_bytes}
use geotrack.Ingest.Schemas.Limits.{Bounded, Fits, parse_ingest_payload-Fits}
use geotrack.Ingest.Key.{verify_ingest_key}
use geotrack.Ingest.Service.{
  http, validation, window, Edge, SubmitError, throttled_for, redis_error, not_positive,
}
use geotrack.Ingest.Device.{offered}
use geotrack.Ingest.Device.Answers.{count_rejected-accepted, Submitted, submit-Submitted}
use geotrack.Ingest.Route.{
  Problem, unauthorized, ingest_throttled, status, Stream, complete, lost, chunk, Request, Settings,
  round_seconds, throttled_problem, check_declared_length, read_from, read_checked,
  read_bounded_body, Answer, answer_of, submit_checked, submit_parsed, submit_body,
  ingest_locations, require_ingest_key,
}

-- the bytes of a stream, which ends as it should
abbrev pub joined : Stream → Option Bytes
joined complete = some []
joined lost = none
joined (chunk c stream) = elim (joined stream) [ none ↦ none | some rest ↦ some (c ++ rest) ]

-- What is in the body that was read: the whole stream, and no more than the ceiling.
abbrev pub Read : ℕ → Stream → Bytes → Bytes → Type 0
Read ceiling stream body raw =
    (rest : Bytes) × (joined stream ≡ some rest) × (raw ≡ body ++ rest) × length raw ≤ ceiling

read_from-Read :
    (ceiling : ℕ) (body : Bytes) (stream : Stream)
    → length body ≤ ceiling
    → Returns (Read ceiling stream body) (read_from ceiling body stream)
unfolding read_from
read_from-Read ceiling body complete h = ([], refl, sym (append-nil body), h)
read_from-Read ceiling body lost h = tt
read_from-Read ceiling body (chunk c stream) h =
    elim (Bool-cases (ltb ceiling (length (body ++ c)))) [
      | inl big ↦ rw big tt
      | inr small ↦ rw small (
          extended (read_from ceiling (body ++ c) stream)
            (read_from-Read ceiling (body ++ c) stream (ground (arith, small))))
    ]
  where
    extended :
        (r : Result Problem Bytes)
        → Returns (Read ceiling stream (body ++ c)) r
        → Returns (Read ceiling (chunk c stream) body) r
    extended (ok raw) (rest, whole, same, short) =
        (c ++ rest, rw whole refl, same ∙ append_assoc body c rest, short)
    extended (raise e) k = tt

read_checked-Read :
    (ceiling : ℕ) (problem : Option Problem) (stream : Stream)
    → Returns (Read ceiling stream []) (read_checked ceiling problem stream)
unfolding read_checked
read_checked-Read ceiling (some problem) stream = tt
read_checked-Read ceiling none stream = read_from-Read ceiling [] stream (omega arith)

-- The body that a request is read to is the whole of its stream, which did not break off, and is
-- no longer than the ceiling of a batch.
pub read_bounded_body-Read :
    (max_batch : ℕ) (request : Request)
    → Returns
        (Read (max_payload_bytes max_batch) request.stream [])
        (read_bounded_body max_batch request)
unfolding read_bounded_body
read_bounded_body-Read max_batch request =
    read_checked-Read (max_payload_bytes max_batch)
      (check_declared_length (max_payload_bytes max_batch) request.declared) request.stream

round_seconds-bounds :
    (ms : ℕ) → (ms ≤ round_seconds ms * 1_000 + 500) × (round_seconds ms * 1_000 ≤ ms + 500)
unfolding round_seconds
round_seconds-bounds ms = ground arith

retry_after_ms-le : (m : BacklogMonitor) → 1_000 ≤ retry_after_ms m
unfolding retry_after_ms
retry_after_ms-le m = ground arith

-- A device that is told to hold off is told a whole number of seconds, at least one, that is within
-- half a second of the milliseconds it is told, which are at least a second.
pub throttled_problem-bounds :
    (m : BacklogMonitor)
    → (seconds : ℕ) × (throttled_problem (retry_after_ms m)
        ≡ ingest_throttled seconds (retry_after_ms m))
      × (1_000 ≤ retry_after_ms m)
      × (1 ≤ seconds)
      × (retry_after_ms m ≤ seconds * 1_000 + 500)
      × (seconds * 1_000 ≤ retry_after_ms m + 500)
unfolding throttled_problem
throttled_problem-bounds m =
    let least = retry_after_ms-le m in
    let (above, below) = round_seconds-bounds (retry_after_ms m) in
    (
      max 1 (round_seconds (retry_after_ms m)),
      refl,
      least,
      ground arith,
      ground (arith, above),
      ground (arith, below, least),
    )

-- The reports of a request are counted as accepted if and only if it is answered with their number.
abbrev pub Counted : (ℕ → Type 0) → Edge → Answer → Type 0
Counted P s (ok n, s') = P n × (s'.accepted ≡ s.accepted ++ ((http, n) ∷ []))
Counted P s (raise problem, s') = (400 ≤ status problem) × (s'.accepted ≡ s.accepted)

answer_of-Counted :
    (P : ℕ → Type 0) (n : ℕ) (s : Edge) (answer : Result SubmitError ℕ × Edge)
    → P n
    → Submitted n http s answer
    → Counted P s (answer_of answer)
answer_of-Counted P n s (ok m, s') p (same, h) = rw same (p, h)
answer_of-Counted P n s (raise (throttled_for ms), s') p h =
    (unfold throttled_problem in omega arith, h)
answer_of-Counted P n s (raise redis_error, s') p h = (omega arith, h)
answer_of-Counted P n s (raise not_positive, s') p h = absurd h

status-le : (problem : Problem) → 400 ≤ status problem
status-le problem = ground arith

module _ {fl : Floats} (settings : Settings fl) (request : Request) (s : Edge) where
  abbrev pub Within : ℕ → Type 0
  Within n = (1 ≤ n) × (n ≤ settings.ingest_max_batch)

  submit_checked-Counted :
      (rs : List (LocationReport fl)) (error : Option IngestError)
      → 0 < settings.service.shards
      → Within (length rs)
      → Counted Within s (submit_checked settings request rs error s)
  unfolding submit_checked
  submit_checked-Counted rs (some error) h k =
      (omega arith, count_rejected-accepted (length rs) http window s)
  submit_checked-Counted rs none h k = answer_of-Counted Within (length rs) s _ k (
      submit-Submitted settings.service request.gate_at_submit request.now_ms request.outcome rs
        http s h k.0)

  submit_parsed-Counted :
      (parsed : Result IngestError (Parsed fl))
      → 0 < settings.service.shards
      → Returns (Fits settings.ingest_max_batch) parsed
      → Counted Within s (submit_parsed settings request parsed s)
  unfolding submit_parsed
  submit_parsed-Counted (raise error) h k =
      (omega arith, count_rejected-accepted (offered error) http validation s)
  submit_parsed-Counted (ok (seq, rs)) h k = submit_checked-Counted rs _ h k

  ingest_locations-Counted :
      Bounded settings.adapters
      → 1 ≤ settings.ingest_max_batch
      → 0 < settings.service.shards
      → Counted Within s (ingest_locations settings request s)
  unfolding ingest_locations
  ingest_locations-Counted bounded least h = elim (Bool-cases request.gate.throttled) [
    | inl shut ↦ rw shut (status-le (throttled_problem (retry_after_ms request.gate)), refl)
    | inr flows ↦ rw flows (body (read_bounded_body settings.ingest_max_batch request))
  ]
    where
      body : (r : Result Problem Bytes) → Counted Within s (submit_body settings request r s)
      body (raise problem) = unfold submit_body in (status-le problem, refl)
      body (ok raw) =
          unfold submit_body in
          submit_parsed-Counted _ h (
            parse_ingest_payload-Fits settings.adapters bounded settings.ingest_max_batch raw least)

  -- If the adapters keep to the batch's limit, the limit is at least one and there is a shard, then
  -- a request to submit locations, whatever its key, its declared length, its body, the gate and
  -- the queue, either is answered with a number of reports, between one and the limit, and just
  -- this number is added to the counter of accepted reports; or it is answered with a status of 400
  -- or above, and that counter stays as it is.
  pub require_ingest_key-Counted :
      Bounded settings.adapters
      → 1 ≤ settings.ingest_max_batch
      → 0 < settings.service.shards
      → Counted Within s (require_ingest_key settings request s)
  unfolding require_ingest_key
  require_ingest_key-Counted bounded least h =
      elim (Bool-cases (verify_ingest_key settings.utf_8 settings.ingest_api_key request.key)) [
        | inl known ↦ rw known (ingest_locations-Counted bounded least h)
        | inr unknown ↦ rw unknown (status-le unauthorized, refl)
      ]

-- ===== src/Ingest/Service.antt =====
-- src/geotrack/ingest/service.py and sharding.py: the acceptance of a batch, and the shard of a
-- device. `zlib.crc32`, the clock's conversion and the outcome of a pipeline are parameters.
pub mod Streams
use Prim.Native.String.{String}
use geotrack.Prelude.{
  ℕ, ◌+◌, ◌%◌, Bool, true, false, List, [], ◌∷◌, ◌++◌, Option, none, some, if◌then◌else◌, length,
  leb, ltb, map,
}
use geotrack.Prelude.Int.{ℤ}
use geotrack.Prelude.Result.{Result, ok, raise, ◌>>=◌}
use geotrack.Prelude.Text.{Bytes}
use geotrack.Float.{Floats}
use geotrack.Processor.Tables.{LocationRecord}
use geotrack.Messaging.Json.{Orjson}
use geotrack.Messaging.Codec.{encode_record}
use geotrack.Ingest.Backlog.{BacklogMonitor, retry_after_ms}
use geotrack.Ingest.Schemas.{LocationReport}

pub data Transport : Type 0 where
  http ws : Transport

pub data RejectReason : Type 0 where
  validation backpressure window auth : RejectReason

-- `BackpressureError`, the `RedisError` of the pipeline, and the `ValueError` of `shard_for`
pub data SubmitError : Type 0 where
  throttled_for : ℕ → SubmitError
  redis_error not_positive : SubmitError

-- `pipe.xadd(ingest_stream(shard), {STREAM_FIELD: encode_record(record)})`
pub record Append : Type 0 where
  pub shard : ℕ
  pub payload : Bytes

-- What `pipe.execute()` did: all the commands, or some of them before it raised.
pub data Outcome : Type 0 where
  executed : Outcome
  broken : List Append → Outcome

-- What the service writes: the entries of all the streams, oldest first, and its two counters,
-- with their labels.
pub record Edge : Type 0 where
  pub entries : List Append
  pub accepted : List (Transport × ℕ)
  pub rejected : List (Transport × RejectReason × ℕ)

-- What the service takes from its libraries, and its number of shards.
pub record Service (fl : Floats) : Type 0 where
  pub orjson : Orjson fl
  pub crc32 : String → ℕ
  pub to_epoch_ms : ℤ → ℤ
  pub shards : ℕ

unfoldable pub shard_for : (String → ℕ) → String → ℕ → Result SubmitError ℕ
shard_for crc32 device_id shards =
    if ltb shards 1 then raise not_positive else ok (crc32 device_id % shards)

unfoldable pub count_rejected : ℕ → Transport → RejectReason → Edge → Edge
count_rejected count transport reason s =
    if ltb 0 count
    then record s { rejected = s.rejected ++ ((transport, reason, count) ∷ []) }
    else s

unfoldable pub finish : Outcome → List Append → ℕ → Transport → Edge → Result SubmitError ℕ × Edge
finish executed commands count transport s = (
  ok count,
  record s { entries = s.entries ++ commands; accepted = s.accepted ++ ((transport, count) ∷ []) },
)
finish (broken written) commands count transport s =
    (raise redis_error, record s { entries = s.entries ++ written })

unfoldable pub written :
    Outcome → Result SubmitError (List Append) → ℕ → Transport → Edge → Result SubmitError ℕ × Edge
unfolding finish
written outcome (ok commands) count transport s = finish outcome commands count transport s
written outcome (raise e) count transport s = (raise e, s)

module _ {fl : Floats} (service : Service fl) where
  abbrev pub record_of : ℤ → LocationReport fl → LocationRecord fl
  record_of received_ms report = record {
    device_id = report.device_id;
    lat = report.latitude;
    lon = report.longitude;
    reported_ms = service.to_epoch_ms report.timestamp;
    received_ms = received_ms;
  }

  -- the loop that fills the pipeline
  unfoldable pub commands_of : ℤ → List (LocationReport fl) → Result SubmitError (List Append)
  unfolding shard_for
  commands_of received_ms [] = ok []
  commands_of received_ms (report ∷ reports) = do
    shard ← shard_for service.crc32 report.device_id service.shards
    rest ← commands_of received_ms reports
    ok (
        record {
          shard = shard;
          payload = encode_record service.orjson (record_of received_ms report);
        }
        ∷ rest)

  unfoldable pub submit :
      BacklogMonitor
      → ℤ
      → Outcome
      → List (LocationReport fl)
      → Transport
      → Edge
      → Result SubmitError ℕ × Edge
  unfolding written commands_of count_rejected retry_after_ms
  submit backlog now_ms outcome [] transport s = (ok 0, s)
  submit backlog now_ms outcome (r ∷ rs) transport s =
      if backlog.throttled
      then (
        raise (throttled_for (retry_after_ms backlog)),
        count_rejected (length (r ∷ rs)) transport backpressure s,
      )
      else written outcome (commands_of now_ms (r ∷ rs)) (length (r ∷ rs)) transport s

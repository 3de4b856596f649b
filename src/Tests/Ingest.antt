-- ===== src/Tests/Ingest.antt =====
-- Concrete runs of the way in: two shards, batches of at most two reports, and the tests' JSON.
use Prim.Native.Char.{char}
use Prim.Native.String.{String}
use geotrack.Prelude.{
  ℕ, zero, suc, sym, ap, ◌∙◌, ◌+◌, ◌≡◌, refl, true, false, Bool, List, [], ◌∷◌, none, some, map,
  leb, arith, here, there, All, Bool-cases, inl, inr, leb→le, if◌then◌else◌,
}
use geotrack.Prelude.Int.{leb_ℤ, pos, ◌+ℤ◌, ◌-ℤ◌}
use geotrack.Prelude.Result.{Result, ok, raise}
use geotrack.Messaging.Json.{as_number, as_int}
use text.Mathlib.Text.{◌==◌ as str_eq}
use geotrack.Realtime.Protocol.{codes}
use geotrack.Messaging.Codec.{decode_record, encode_record, Casts}
use geotrack.Messaging.Codec.RoundTrip.{
  IsRecord, HasStamps, KeepsTyped, decode_record-encode_record, decode_record-IsRecord,
}
use geotrack.Processor.Tables.{LocationRecord}
use geotrack.Realtime.Hub.{PositionItem}
use geotrack.Ingest.Backlog.{BacklogMonitor, retry_after_ms, run}
use geotrack.Ingest.Backlog.Hysteresis.{last_verdict, run-last_verdict}
use geotrack.Ingest.Schemas.{
  max_payload_bytes, LocationReport, Adapters, ValidationError, other, too_long,
  parse_ingest_payload, check_report_window,
}
use geotrack.Ingest.Schemas.Limits.{Bounded, Verdict, check_report_window-Verdict}
use geotrack.Ingest.Service.{
  ws, count_rejected, written, finish, commands_of, Service, Edge, executed, http, submit,
  record_of,
}
use geotrack.Ingest.Service.Streams.{stream, submit-decode_record}
use geotrack.Ingest.Shards.{verify_shard_count}
use geotrack.Ingest.Shards.Agreement.{started, verify_shard_count-agree}
use geotrack.Ingest.Device.{
  Turn, text as text_frame, DeviceSession, new_session, Settings, loop, handle_frame, record_bad,
  after_parse, check_and_submit, after_submit, acknowledge, send,
}
use geotrack.Ingest.Device.Budget.{budget_after, record_bad-fresh}
use geotrack.Ingest.Device.Shedding.{Rate, Sheds, loop-Rate}
use geotrack.Ingest.Route.{Request, undeclared, chunk, complete, require_ingest_key}
use geotrack.Ingest.Route.{Settings as RouteSettings}
use geotrack.Ingest.Route.Answers.{Counted, Within, require_ingest_key-Counted}
use geotrack.Tests.Realtime.{integers}
use geotrack.Tests.Postfix.{postfix, postfix-ReadsBack}

abbrev truck : LocationRecord integers
truck = record {
  device_id = "truck";
  lat = pos 10;
  lon = pos 20;
  reported_ms = pos 1_000;
  received_ms = pos 1_100;
}

truck-IsRecord : IsRecord truck
truck-IsRecord = record { named = refl; finite = (refl, refl); latitude = refl; longitude = refl }

decode_record-IsRecord_example : IsRecord truck
decode_record-IsRecord_example =
    decode_record-IsRecord postfix (encode_record postfix truck) truck (
      decode_record-encode_record postfix truck postfix-ReadsBack truck-IsRecord
        record { reported = (omega arith, omega arith); received = (omega arith, omega arith) })

abbrev pub casts : Casts integers
casts = record { float_of = as_number; int_of = as_int }

pub casts-KeepsTyped : KeepsTyped casts
casts-KeepsTyped = record { of_float = λ x. refl; of_int = λ n. refl }

abbrev pub parked : PositionItem integers
parked = record { device_id = "truck"; lat = pos 10; lon = pos 20; reported_ms = pos 1_000 }

abbrev gate : Bool → BacklogMonitor
gate shut = record { high = 10; low = 3; twice_poll_ms = 1_000; throttled = shut; backlog = 0 }

run-last_verdict_example :
    (run (some (4 ∷ 9 ∷ []) ∷ none ∷ some (5 ∷ []) ∷ []) (gate false)).throttled
    ≡ last_verdict 10 3 (some (4 ∷ 9 ∷ []) ∷ none ∷ some (5 ∷ []) ∷ []) false
run-last_verdict_example =
    run-last_verdict (some (4 ∷ 9 ∷ []) ∷ none ∷ some (5 ∷ []) ∷ []) (gate false) (omega arith)

-- a report at a time in microseconds
abbrev of_truck : String → ℕ → LocationReport integers
of_truck name at = record {
  device_id = name;
  latitude = pos 10;
  longitude = pos 20;
  timestamp = pos at;
}

-- adapters that read two reports from any array and any envelope
abbrev limited : {A : Type 0} → ℕ → A → Result ValidationError A
limited n a = if leb 2 n then ok a else raise (too_long (some 2))

abbrev two : List (LocationReport integers)
two = of_truck "truck" 1_000_000 ∷ of_truck "van" 2_000_000 ∷ []

abbrev adapters : Adapters integers
adapters = record {
  items = λ n raw. limited n two;
  envelope = λ n raw. limited n (some (pos 7), two);
  report = λ raw. raise other;
}

adapters-Bounded : Bounded adapters
adapters-Bounded n raw = elim (Bool-cases (leb 2 n)) [
  | inl e ↦ rw e (leb→le 2 n e, leb→le 2 n e)
  | inr e ↦ rw e (tt, tt)
]

abbrev two_shards : Service integers
two_shards = record {
  orjson = postfix;
  crc32 = λ name. if str_eq name "van" then 4 else 3;
  to_epoch_ms = λ t. t;
  shards = 2;
}

abbrev edge : Edge
edge = record { entries = []; accepted = []; rejected = [] }

two-IsRecord : All (λ r. IsRecord (record_of two_shards (pos 5) r)) two
two-IsRecord = (
  record { named = refl; finite = (refl, refl); latitude = refl; longitude = refl },
  (record { named = refl; finite = (refl, refl); latitude = refl; longitude = refl }, tt),
)

two-HasStamps : All (λ r. HasStamps (record_of two_shards (pos 5) r)) two
two-HasStamps = (
  record { reported = (omega arith, omega arith); received = (omega arith, omega arith) },
  (record { reported = (omega arith, omega arith); received = (omega arith, omega arith) }, tt),
)

submit-decode_record_example :
    map
      (decode_record postfix)
      (stream 1 ((submit two_shards (gate false) (pos 5) executed two http edge).1).entries)
    ≡ ok (record_of two_shards (pos 5) (of_truck "truck" 1_000_000)) ∷ []
submit-decode_record_example =
    submit-decode_record two_shards (gate false) (pos 5) two http edge (omega arith) refl
      postfix-ReadsBack two-IsRecord two-HasStamps 1

abbrev tally : ℕ → String
tally zero = ""
tally (suc n) = String.◌∷◌ (char 49 tt) (tally n)

abbrev strokes : String → ℕ
strokes String.[] = 0
strokes (String.◌∷◌ c s) = strokes s + 1

strokes-tally : (n : ℕ) → strokes (tally n) ≡ n
strokes-tally zero = refl
strokes-tally (suc n) = omega (arith, strokes-tally n)

tally_injective : (a b : ℕ) → tally a ≡ tally b → a ≡ b
tally_injective a b h = sym (strokes-tally a) ∙ ap strokes h ∙ strokes-tally b

started_two : started tally (8 ∷ 4 ∷ 8 ∷ []) none ≡ 8 ∷ 8 ∷ []
unfolding started verify_shard_count
started_two = refl

verify_shard_count-agree_example : ◌≡◌ {A = ℕ} 8 8
verify_shard_count-agree_example =
    verify_shard_count-agree tally tally_injective (8 ∷ 4 ∷ 8 ∷ []) none 8 8 (rw started_two here)
      (rw started_two (there here))

record_bad-fresh_example :
    record_bad 20 60 70 (budget_after 20 60 (1 ∷ 30 ∷ []) []) ≡ (true, 30 ∷ 70 ∷ [])
record_bad-fresh_example =
    record_bad-fresh 20 60 (1 ∷ 30 ∷ []) 70 (omega arith, (omega arith, omega arith))

abbrev device : Settings integers
device = record {
  adapters = adapters;
  service = two_shards;
  ingest_max_batch = 5;
  max_age = pos 10_000_000;
  max_future = pos 10_000_000;
}

abbrev turn : Bool → Turn
turn shut = record {
  message = text_frame (codes "[{},{}]");
  monotonic = 9_000_000;
  utc_now = pos 3_000_000;
  now_ms = pos 5;
  gate = gate shut;
  gate_at_submit = gate false;
  outcome = executed;
  writable = true;
  dumps_int = λ n. leb_ℤ n (pos 18_446_744_073_709_551_615);
}

-- A sequence number of more than 64 bits: both reports are accepted, and the session dies.
lost_ack :
    let answer =
      handle_frame device
        (record (turn false) { dumps_int = λ n. false })
        (codes "{\"items\":[{},{}],\"seq\":7}")
        (new_session edge) in
    (answer.0 ≡ none) × (answer.1.edge.accepted ≡ (ws, 2) ∷ [])
unfolding handle_frame after_parse check_and_submit after_submit acknowledge send submit
    count_rejected written finish commands_of max_payload_bytes parse_ingest_payload
    check_report_window
lost_ack = (refl, refl)

sheds : Sheds 1_000_000_000 9_000_000 (turn true)
sheds = (refl, refl, codes "[{},{}]", refl, unfold retry_after_ms in refl, omega arith)

loop-Rate_example :
    (s' : DeviceSession) × (loop device (turn true ∷ turn true ∷ []) (new_session edge)
      ≡ (some true, s'))
    × Rate 1_000_000_000 9_000_000 2 (new_session edge) s'
loop-Rate_example =
    loop-Rate device (turn true ∷ turn true ∷ []) 1_000_000_000 9_000_000 (new_session edge)
      (sheds, (sheds, tt))

abbrev route : RouteSettings integers
route = record {
  utf_8 = λ s. s;
  ingest_api_key = codes "secret";
  adapters = adapters;
  service = two_shards;
  ingest_max_batch = 5;
  history_retention_days = 30;
  ingest_max_future_skew_s = 60;
}

abbrev request : Request
request = record {
  key = some (codes "secret");
  declared = undeclared;
  stream = chunk (codes "[{},") (chunk (codes "{}]") complete);
  gate = gate false;
  gate_at_submit = gate false;
  utc_now = pos 3_000_000;
  now_ms = pos 5;
  outcome = executed;
}

require_ingest_key-Counted_example :
    Counted (Within route request edge) edge (require_ingest_key route request edge)
require_ingest_key-Counted_example =
    require_ingest_key-Counted route request edge adapters-Bounded (omega arith) (omega arith)

check_report_window-Verdict_example :
    Verdict
      (pos 500_000)
      (pos 1_500_000)
      0
      two
      (check_report_window (pos 1_000_000) (pos 500_000) (pos 500_000) two)
unfolding ◌+ℤ◌ ◌-ℤ◌
check_report_window-Verdict_example =
    check_report_window-Verdict (pos 1_000_000) (pos 500_000) (pos 500_000) two

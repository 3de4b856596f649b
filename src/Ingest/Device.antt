-- ===== src/Ingest/Device.antt =====
-- src/geotrack/api/routes/ws_ingest.py: the budget of bad frames and the session of one device.
-- `time.monotonic()` is a number of nanoseconds, `utc_now()` one of microseconds.
pub mod Budget
pub mod Answers
pub mod Shedding
use geotrack.Prelude.{
  ℕ, suc, ◌+◌, ◌-◌, ◌*◌, Bool, true, false, not, ◌&&◌, List, [], ◌∷◌, ◌++◌, Option, none, some,
  if◌then◌else◌, length, leb, ltb,
}
use geotrack.Prelude.Int.{ℤ}
use geotrack.Prelude.Result.{Result, ok, raise}
use geotrack.Prelude.Text.{Bytes}
use geotrack.Float.{Floats}
use geotrack.Realtime.Protocol.{close_protocol_error, close_unauthorized}
use geotrack.Ingest.Backlog.{BacklogMonitor, retry_after_ms}
use geotrack.Ingest.Schemas.{
  LocationReport, IngestError, too_large, Adapters, Parsed, max_payload_bytes, parse_ingest_payload,
  check_report_window,
}
use geotrack.Ingest.Key.{verify_ingest_key}
use geotrack.Ingest.Service.{
  ws, validation, window, auth, SubmitError, throttled_for, redis_error, not_positive, Outcome,
  Edge, Service, count_rejected, submit,
}

abbrev pub malformed_limit : ℕ
malformed_limit = 20

-- sixty seconds
abbrev pub malformed_window : ℕ
malformed_window = 60_000_000_000

-- `while self._events and now - self._events[0] > self._window_s: popleft()`
abbrev pub popleft_old : ℕ → ℕ → List ℕ → List ℕ
popleft_old span now [] = []
popleft_old span now (e ∷ events) =
    let rest = popleft_old span now events in if ltb span (now - e) then rest else e ∷ events

-- `MalformedBudget.record`, on `_events`
unfoldable pub record_bad : ℕ → ℕ → ℕ → List ℕ → Bool × List ℕ
record_bad limit span now events =
    let left_in = popleft_old span now (events ++ (now ∷ [])) in
    (leb (length left_in) limit, left_in)

-- the three payloads of a frame from the peer, and its leaving
pub data Message : Type 0 where
  disconnect : Message
  text : Bytes → Message
  binary : Bytes → Message
  bare : Message

abbrev pub payload_of : Message → Option Bytes
payload_of disconnect = none
payload_of (text bytes) = some bytes
payload_of (binary bytes) = some bytes
payload_of bare = some []

-- why a frame is refused: the source spells it out in `detail`
pub data Detail : Type 0 where
  frame_exceeds : ℕ → Detail
  refused : IngestError → Detail
  queue_unreachable : Detail

pub data Frame : Type 0 where
  throttle_frame : ℕ → Frame
  error_frame : Detail → Option ℤ → Frame
  ack_frame : ℤ → ℕ → Frame

pub record DeviceSession : Type 0 where
  pub budget : List ℕ
  pub quiet_until : ℕ
  pub shed_frames : ℕ
  pub sent : List Frame
  pub closed : Option ℕ
  pub edge : Edge

-- What one turn of the loop sees: a frame, the clocks, the gate when the frame is read and when its
-- reports are submitted, what the pipeline does, whether a frame can be sent in time, and which
-- integers `orjson.dumps` takes.
pub record Turn : Type 0 where
  pub message : Message
  pub monotonic : ℕ
  pub utc_now : ℤ
  pub now_ms : ℤ
  pub gate : BacklogMonitor
  pub gate_at_submit : BacklogMonitor
  pub outcome : Outcome
  pub writable : Bool
  pub dumps_int : ℤ → Bool

pub record Settings (fl : Floats) : Type 0 where
  pub adapters : Adapters fl
  pub service : Service fl
  pub ingest_max_batch : ℕ
  pub max_age : ℤ
  pub max_future : ℤ

-- `none` where an exception leaves the session: the peer is gone, a send took too long, or orjson
-- does not take the frame.
abbrev pub Step : Type 0 → Type 0
Step A = Option A × DeviceSession

infixl 5 ◌>>=◌
abbrev pub ◌>>=◌ : {A B : Type 0} → Step A → (A → DeviceSession → Step B) → Step B
(some a, s) >>= f = f a s
(none, s) >>= f = (none, s)

-- whether `orjson.dumps` takes the frame: the only integer of any size in it is the device's
abbrev pub dumpable : Turn → Frame → Bool
dumpable turn (throttle_frame ms) = true
dumpable turn (error_frame detail none) = true
dumpable turn (error_frame detail (some seq)) = turn.dumps_int seq
dumpable turn (ack_frame seq accepted) = turn.dumps_int seq

unfoldable pub send : Turn → Frame → DeviceSession → Step Unit
send turn frame s =
    if dumpable turn frame && turn.writable
    then (some tt, record s { sent = s.sent ++ (frame ∷ []) })
    else (none, s)

unfoldable pub notify_throttled : Turn → BacklogMonitor → Bool → DeviceSession → Step Unit
unfolding send retry_after_ms
notify_throttled turn gate force s =
    if ltb turn.monotonic s.quiet_until && not force
    then (some tt, s)
    else send turn (throttle_frame (retry_after_ms gate))
        (record s { quiet_until = turn.monotonic + retry_after_ms gate * 1_000_000 })

abbrev pub after_budget : Bool × List ℕ → DeviceSession → Step Bool
after_budget (true, events) s = (some true, record s { budget = events })
after_budget (false, events) s =
    (some false, record s { budget = events; closed = some close_protocol_error })

unfoldable pub reject : Turn → Detail → ℕ → DeviceSession → Step Bool
unfolding send count_rejected record_bad
reject turn detail reports s =
    send turn (error_frame detail none)
      (record s { edge = count_rejected reports ws validation s.edge })
    >>= λ done s.
        after_budget (record_bad malformed_limit malformed_window turn.monotonic s.budget) s

abbrev pub offered : IngestError → ℕ
offered (too_large n limit) = n
offered _ = 1

abbrev pub keep_going : Step Unit → Step Bool
keep_going step = step >>= λ done s. (some true, s)

unfoldable pub acknowledge : Turn → Option ℤ → ℕ → DeviceSession → Step Bool
unfolding send
acknowledge turn none accepted s = (some true, s)
acknowledge turn (some seq) accepted s = keep_going (send turn (ack_frame seq accepted) s)

unfoldable pub after_submit :
    Turn → Option ℤ → Result SubmitError ℕ × Edge → DeviceSession → Step Bool
unfolding acknowledge notify_throttled send
after_submit turn seq (ok accepted, edge) s =
    acknowledge turn seq accepted (record s { edge = edge })
after_submit turn seq (raise (throttled_for ms), edge) s =
    keep_going (notify_throttled turn turn.gate_at_submit true (record s { edge = edge }))
after_submit turn seq (raise redis_error, edge) s =
    keep_going (send turn (error_frame queue_unreachable seq) (record s { edge = edge }))
after_submit turn seq (raise not_positive, edge) s = (none, record s { edge = edge })

-- `x_ingest_key or key`
abbrev pub either_key : Option (List ℕ) → Option (List ℕ) → Option (List ℕ)
either_key (some (c ∷ cs)) key = some (c ∷ cs)
either_key _ key = key

abbrev pub new_session : Edge → DeviceSession
new_session edge = record {
  budget = [];
  quiet_until = 0;
  shed_frames = 0;
  sent = [];
  closed = none;
  edge = edge;
}

module _ {fl : Floats} (settings : Settings fl) where
  unfoldable pub check_and_submit :
      Turn → Option ℤ → List (LocationReport fl) → Option IngestError → DeviceSession → Step Bool
  unfolding submit after_submit send count_rejected
  check_and_submit turn seq reports (some error) s = keep_going (
      send turn (error_frame (refused error) seq)
        (record s { edge = count_rejected (length reports) ws window s.edge }))
  check_and_submit turn seq reports none s =
      after_submit turn seq
        (submit settings.service turn.gate_at_submit turn.now_ms turn.outcome reports ws s.edge) s

  unfoldable pub after_parse : Turn → Result IngestError (Parsed fl) → DeviceSession → Step Bool
  unfolding check_and_submit check_report_window reject
  after_parse turn (raise error) s = reject turn (refused error) (offered error) s
  after_parse turn (ok (seq, reports)) s =
      check_and_submit turn seq reports
        (check_report_window turn.utc_now settings.max_age settings.max_future reports) s

  -- `_handle`
  unfoldable pub handle_frame : Turn → Bytes → DeviceSession → Step Bool
  unfolding after_parse reject max_payload_bytes parse_ingest_payload
  handle_frame turn raw s =
      if ltb (max_payload_bytes settings.ingest_max_batch) (length raw)
      then reject turn (frame_exceeds (max_payload_bytes settings.ingest_max_batch)) 1 s
      else after_parse turn (parse_ingest_payload settings.adapters settings.ingest_max_batch raw) s

  -- the body of the loop of `run`: whether it goes on
  unfoldable pub turn_of : Turn → Option Bytes → DeviceSession → Step Bool
  unfolding handle_frame notify_throttled
  turn_of turn none s = (some false, s)
  turn_of turn (some raw) s =
      if turn.gate.throttled
      then keep_going
          (notify_throttled turn turn.gate false (record s { shed_frames = suc s.shed_frames }))
      else handle_frame turn raw s

  -- the loop, on the turns that come
  unfoldable pub loop : List Turn → DeviceSession → Step Bool
  unfolding turn_of
  loop [] s = (some true, s)
  loop (turn ∷ turns) s = turn_of turn (payload_of turn.message) s >>= λ on s.
      if on then loop turns s else (some false, s)

  -- `run`: the first notice goes out on the turn that precedes any frame
  unfoldable pub run_session : Turn → List Turn → DeviceSession → Step Bool
  unfolding loop notify_throttled
  run_session first turns s =
      (if first.gate.throttled then notify_throttled first first.gate false s else (some tt, s))
      >>= λ done s. loop turns s

  -- `ws_ingest`, on a session that starts from the service's counters
  unfoldable pub ws_ingest :
      (List ℕ → Bytes)
      → Bytes
      → Option (List ℕ)
      → Option (List ℕ)
      → Turn
      → List Turn
      → Edge
      → DeviceSession
  unfolding run_session verify_ingest_key
  ws_ingest utf_8 expected header key first turns edge =
      if verify_ingest_key utf_8 expected (either_key header key)
      then (run_session first turns (new_session edge)).1
      else record (new_session edge) {
        closed = some close_unauthorized;
        edge = record edge { rejected = edge.rejected ++ ((ws, auth, 1) ∷ []) };
      }

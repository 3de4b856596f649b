-- ===== src/Generator/Socket.antt =====
-- generator.py: `WebsocketWorker`, and how it puts reports on its socket and reads the answers.
-- websockets is what each call of `send` ends with. The counters are a worker's share of those
-- that all workers add to.
pub mod Delivered
pub mod Pending
pub mod Answers
pub mod Run
use Prim.Native.String.{String}
use text.Mathlib.Text.{◌==◌ as str_eq}
use geotrack.Prelude.{
  ℕ, zero, suc, ◌+◌, ◌-◌, Bool, true, false, List, [], ◌∷◌, ◌++◌, length, take, drop, Option, none,
  some, if◌then◌else◌, ltb, leb, ◌==◌, ℕ_discrete, ite,
}
use geotrack.Prelude.Dict.{Dict, get, put, pop}
use geotrack.Prelude.Int.{ℤ, pos, negsuc, ◌+ℤ◌}
use geotrack.Prelude.Text.{Bytes, String-discrete}
use geotrack.Float.{Floats, max_of}
use geotrack.Messaging.Json.{Json, obj, str, Fields, Orjson, get_field, as_int, as_number}
use geotrack.Generator.{Random, Math}
use geotrack.Generator.Fleet.{Devices, Report, start, pop_due, step_all, reschedule_all, defer_all}
use geotrack.Generator.Stats.{
  Stats, sample, reconnect_base_s, reconnect_max_s, backed_off, retry_pause,
}

abbrev pub pending_acks_max : ℕ
pending_acks_max = 1_024

-- `chunked`, for a positive size: the slices in their order. A slice takes an item at least, so
-- as many rounds as there are items are enough.
unfoldable pub chunks_of : {A : Type 0} → ℕ → ℕ → List A → List (List A)
chunks_of zero size xs = []
chunks_of (suc n) size [] = []
chunks_of (suc n) size (x ∷ xs) = take size (x ∷ xs) ∷ chunks_of n size (drop size (x ∷ xs))

unfoldable pub chunked : {A : Type 0} → List A → ℕ → List (List A)
unfolding chunks_of
chunked xs size = chunks_of (length xs) size xs

-- `sorted(pending)[:n]`, of a list without repetition
unfoldable pub insert_up : ℕ → List ℕ → List ℕ
insert_up k [] = k ∷ []
insert_up k (j ∷ js) = let rest = insert_up k js in if leb k j then k ∷ j ∷ js else j ∷ rest

unfoldable pub sorted_keys : {V : Type 0} → Dict ℕ V → List ℕ
unfolding insert_up
sorted_keys [] = []
sorted_keys ((k, v) ∷ d) = insert_up k (sorted_keys d)

-- `del d[k]` for each key
unfoldable pub remove_all : {V : Type 0} → List ℕ → Dict ℕ V → Dict ℕ V
remove_all [] d = d
remove_all (k ∷ ks) d = remove_all ks (pop ℕ_discrete k d)

pub record Worker (fl : Floats) (rnd : Random fl) : Type 0 where
  pub devices : Devices fl rnd
  -- when a frame was sent, and how many reports it carried
  pub pending : Dict ℕ (fl.F × ℕ)
  pub pause_until : fl.F
  pub seq : ℕ
  pub connected_once : Bool
  pub stats : Stats fl rnd

module _ (fl : Floats) (rnd : Random fl) where
  open fl use {F, lt, sub, mul, div, add, literal}

  unfoldable pub new_worker : Devices fl rnd → Stats fl rnd → Worker fl rnd
  new_worker devices stats = record {
    devices = devices;
    pending = [];
    pause_until = literal (pos 0);
    seq = 0;
    connected_once = false;
    stats = stats;
  }

  unfoldable pub remember : ℕ → F → ℕ → Worker fl rnd → Worker fl rnd
  unfolding sorted_keys remove_all
  remember seq at size w =
      let pending = put ℕ_discrete seq (at, size) w.pending in
      let stale = take (length pending - pending_acks_max) (sorted_keys pending) in
      record w {
        pending =
            if ltb pending_acks_max (length pending) then remove_all stale pending else pending;
      }

  abbrev pub carried : Option (F × ℕ) → ℕ
  carried none = 0
  carried (some (at, size)) = size

  unfoldable pub forget : ℕ → Worker fl rnd → ℕ × Worker fl rnd
  forget seq w =
      (carried (get ℕ_discrete seq w.pending), record w { pending = pop ℕ_discrete seq w.pending })

  -- `ends` tells of each frame, by its number, when it was handed to the socket and whether
  -- `send` returned: it is false where the peer is gone or the worker is cancelled. The result
  -- tells whether all frames went out.
  unfoldable pub send_chunks :
      (ℕ → F × Bool) → List (List (Report fl)) → ℕ → Worker fl rnd → Bool × Worker fl rnd
  unfolding remember
  send_chunks ends [] undelivered w = (true, w)
  send_chunks ends (chunk ∷ chunks) undelivered w =
      let seq = w.seq + 1 in
      let w' = remember seq (ends seq).0 (length chunk) (record w { seq = seq }) in
      let stopped = record w' {
        stats = record w'.stats { dropped = w'.stats.dropped + undelivered };
      } in
      let went = record w' { stats = record w'.stats { sent = w'.stats.sent + length chunk } } in
      let rest = send_chunks ends chunks (undelivered - length chunk) went in
      if (ends seq).1 then rest else (false, stopped)

  -- `_send`
  unfoldable pub send : ℕ → (ℕ → F × Bool) → List (Report fl) → Worker fl rnd → Bool × Worker fl rnd
  unfolding chunked send_chunks
  send max_batch ends reports w = send_chunks ends (chunked reports max_batch) (length reports) w

  module _ (mt : Math fl) (round7 : F → F) where
    -- A round of `_send_forever`, with the batch limit, the readings of the clocks, and the ends
    -- of the sends. The result tells whether the loop goes on.
    unfoldable pub send_round : ℕ → F → ℕ → (ℕ → F × Bool) → Worker fl rnd → Bool × Worker fl rnd
    unfolding send
    send_round max_batch now moment ends w =
        let (due, rest) = pop_due fl now w.devices.schedule in
        let waiting = record w.devices { schedule = rest } in
        let pause = sub w.pause_until now in
        let (reports, moved) = step_all fl rnd mt round7 moment due waiting in
        let stats = record w.stats { produced = w.stats.produced + length reports } in
        let sending =
          send max_batch ends reports
            (record w { devices = reschedule_all fl rnd now due moved; stats = stats }) in
        let held = record w { devices = defer_all fl rnd (add now pause) due waiting } in
        if leb (length due) 0
        then (true, w)
        else if lt (literal (pos 0)) pause
        then (true, held)
        else sending

  -- `_session`: a socket opens, and is left when its sender stops.
  unfoldable pub opened : Worker fl rnd → Worker fl rnd
  opened w =
      let again = if w.connected_once then 1 else 0 in
      record w {
        connected_once = true;
        stats = record w.stats {
          reconnects = w.stats.reconnects + again;
          in_flight = w.stats.in_flight + 1;
        };
      }

  unfoldable pub left : Worker fl rnd → Worker fl rnd
  left w = record w { stats = record w.stats { in_flight = w.stats.in_flight - 1 } }

  -- A connection attempt failed, at once or after its socket was open; with the next delay.
  unfoldable pub session_failed : Bool → F → Worker fl rnd → F × Worker fl rnd
  unfolding backed_off
  session_failed was_open delay w = (
    backed_off fl (if was_open then reconnect_base_s fl else delay),
    record w { stats = record w.stats { failures = w.stats.failures + 1 } },
  )

  module _ (o : Orjson fl) where
    abbrev pub as_seq : Option ℤ → Option ℕ
    as_seq (some (pos n)) = some n
    as_seq _ = none

    abbrev pub int_field : String → Fields fl → Option ℤ
    int_field key fields = elim (get_field key fields) [ none ↦ none | some j ↦ as_int j ]

    abbrev pub type_field : Option (Json fl) → String
    type_field (some (str t)) = t
    type_field _ = ""

    abbrev pub or_zero : Option ℤ → ℤ
    or_zero none = pos 0
    or_zero (some n) = n

    unfoldable pub timed : F → Option (F × ℕ) → Stats fl rnd → Stats fl rnd
    unfolding sample
    timed now none s = s
    timed now (some (at, size)) s = record s {
      latency = sample fl rnd (mul (sub now at) (literal (pos 1_000))) s.latency;
    }

    -- A key that is no sequence number is in no dict of them.
    unfoldable pub ack_pending : F → Option ℕ → Worker fl rnd → Worker fl rnd
    unfolding timed
    ack_pending now none w = w
    ack_pending now (some seq) w = record w {
      pending = pop ℕ_discrete seq w.pending;
      stats = timed now (get ℕ_discrete seq w.pending) w.stats;
    }

    unfoldable pub on_ack : F → Fields fl → Worker fl rnd → Worker fl rnd
    unfolding ack_pending
    on_ack now fields w =
        let w' = ack_pending now (as_seq (int_field "seq" fields)) w in
        record w' {
          stats = record w'.stats {
            accepted = w'.stats.accepted +ℤ or_zero (int_field "accepted" fields);
          };
        }

    abbrev pub number_or : F → Option (Json fl) → F
    number_or fallback none = fallback
    number_or fallback (some j) = elim (as_number j) [ none ↦ fallback | some x ↦ x ]

    unfoldable pub on_throttle : F → Fields fl → Worker fl rnd → Worker fl rnd
    unfolding retry_pause
    on_throttle now fields w =
        let retry_ms = number_or (literal (pos 1_000)) (get_field "retry_after_ms" fields) in
        let retry_s = div retry_ms (literal (pos 1_000)) in
        let pause = retry_pause fl (some retry_s) (reconnect_base_s fl) in
        record w {
          pause_until = max_of fl w.pause_until (add now pause);
          stats = record w.stats { throttles = w.stats.throttles + 1 };
        }

    -- The frame that an error is about; a negative number is in no dict.
    unfoldable pub refused : Option ℤ → Worker fl rnd → ℕ × Worker fl rnd
    unfolding forget
    refused none w = forget w.seq w
    refused (some (pos seq)) w = forget seq w
    refused (some (negsuc n)) w = (0, w)

    unfoldable pub on_error : Fields fl → Worker fl rnd → Worker fl rnd
    unfolding refused
    on_error fields w =
        let (reports, w') = refused (int_field "seq" fields) w in
        record w' { stats = record w'.stats { rejected = w'.stats.rejected + reports } }

    unfoldable pub handle_frame : F → Option (Json fl) → Worker fl rnd → Worker fl rnd
    unfolding on_ack on_throttle on_error
    handle_frame now none w = record w {
      stats = record w.stats { failures = w.stats.failures + 1 };
    }
    handle_frame now (some (obj fields)) w =
        let type = type_field (get_field "type" fields) in
        if str_eq type "ack"
        then on_ack now fields w
        else if str_eq type "throttle"
        then on_throttle now fields w
        else if str_eq type "error"
        then on_error fields w
        else w
    handle_frame now (some other) w = w

    -- `_handle`
    unfoldable pub handle : F → Bytes → Worker fl rnd → Worker fl rnd
    unfolding handle_frame
    handle now message w = handle_frame now (o.loads message) w

-- What comes next in a worker's life: a round of its sender, a socket that opens or is left, a
-- connection attempt that fails, a message, or a restart of its fleet.
pub data Event (fl : Floats) : Type 0 where
  ticks : fl.F → ℕ → (ℕ → fl.F × Bool) → Event fl
  opens leaves : Event fl
  fails : Bool → fl.F → Event fl
  says : fl.F → Bytes → Event fl
  rearms : fl.F → fl.F → Event fl

module _ (fl : Floats) (rnd : Random fl) (mt : Math fl) (round7 : fl.F → fl.F) (o : Orjson fl)
    (max_batch : ℕ) where
  unfoldable pub happen : Event fl → Worker fl rnd → Worker fl rnd
  happen (ticks now moment ends) w = (send_round fl rnd mt round7 max_batch now moment ends w).1
  happen opens w = opened fl rnd w
  happen leaves w = left fl rnd w
  happen (fails was_open delay) w = (session_failed fl rnd was_open delay w).1
  happen (says now message) w = handle fl rnd o now message w
  happen (rearms now spread) w = record w { devices = start fl rnd now spread w.devices }

  unfoldable pub happen_all : List (Event fl) → Worker fl rnd → Worker fl rnd
  happen_all [] w = w
  happen_all (e ∷ es) w = happen_all es (happen e w)

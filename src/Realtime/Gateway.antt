-- ===== src/Realtime/Gateway.antt =====
-- src/geotrack/realtime/gateway.py: a tick of the position loop, and the messages of one client.
pub mod FanOut
pub mod Budget
use Prim.Native.String.{String}
use text.Mathlib.Text.{◌==◌ as str_eq}
use geotrack.Prelude.{
  ℕ, zero, suc, ◌+◌, ◌-◌, ◌%◌, Bool, true, false, ◌||◌, ◌&&◌, not, List, [], ◌∷◌, ◌++◌, Option,
  none, some, if◌then◌else◌, any, map, length, leb, ltb, ◌==◌,
}
use geotrack.Prelude.Int.{ℤ}
use geotrack.Prelude.Result.{Result, ok, raise}
use geotrack.Prelude.Text.{Bytes}
use geotrack.Float.{Floats}
use geotrack.Messaging.Json.{Orjson}
use geotrack.Messaging.Codec.{Casts}
use geotrack.Geo.{BBoxError}
use geotrack.Realtime.Hub.{Hub, TickDelta, drain, discard_pending, sweep}
use geotrack.Realtime.Protocol.{Wire, close_protocol_error}
use geotrack.Realtime.Messages.{
  ClientMessage, viewport_message, ping_message, ProtocolError, parse_client_message,
}
use geotrack.Realtime.Connection.{
  Connection, wants_positions, offer_positions, send_control, request_close, set_viewport,
}

abbrev pub malformed_budget : ℕ
malformed_budget = 20

-- sixty seconds, in nanoseconds
abbrev pub malformed_window : ℕ
malformed_window = 60_000_000_000

abbrev pub max_client_message_bytes : ℕ
max_client_message_bytes = 16_384

-- `TickDelta.is_empty`
abbrev pub is_empty : TickDelta → Bool
is_empty delta = elim delta.chunks [
  | [] ↦ elim delta.departures [ [] ↦ true | d ∷ ds ↦ false ]
  | c ∷ cs ↦ false
]

module _ {fl : Floats} (w : Wire fl) where
  -- the last loop of `fan_out`, over the connections that are watching, within all of them
  unfoldable pub offer_watching : TickDelta → List (Connection fl) → List (Connection fl)
  unfolding offer_positions wants_positions
  offer_watching delta [] = []
  offer_watching delta (c ∷ cs) =
      (if wants_positions c then offer_positions w delta c else c) ∷ offer_watching delta cs

  -- `fan_out`; `none` where `drain` raises
  unfoldable pub fan_out :
      Hub fl → List (Connection fl) → ℤ → Option (Hub fl × List (Connection fl))
  unfolding offer_watching drain discard_pending wants_positions
  fan_out h cs t_ms =
      if any wants_positions cs
      then elim (drain fl w.encode t_ms h) [
        | none ↦ none
        | some (delta, h') ↦ some (h', if is_empty delta then cs else offer_watching delta cs)
      ]
      else some (discard_pending fl h, cs)

  -- One tick, with the sweep of every so many of them. `_keep_running` logs what a tick raises and
  -- drops it.
  unfoldable pub position_tick :
      ℕ → ℕ → ℤ → Hub fl → List (Connection fl) → Hub fl × List (Connection fl)
  unfolding fan_out sweep
  position_tick sweep_every ticks moment h cs =
      let swept = if ticks % sweep_every == 0 then sweep fl moment h else h in
      elim (fan_out swept cs moment) [ none ↦ (swept, cs) | some after ↦ after ]

-- `while violations and violations[0] < at - 60: popleft()`
abbrev pub popleft_before : ℕ → ℕ → List ℕ → List ℕ
popleft_before span at [] = []
popleft_before span at (v ∷ violations) =
    let rest = popleft_before span at violations in
    if ltb (v + span) at then rest else v ∷ violations

-- What the client's messages lead to: its connection and its violations.
pub record Receiver (fl : Floats) : Type 0 where
  pub connection : Connection fl
  pub violations : List ℕ

-- a message of the peer: gone, with a payload, or with neither bytes nor text
pub data Incoming : Type 0 where
  gone empty : Incoming
  payload : Bytes → Incoming

-- what is wrong with a message
pub data Violation : Type 0 where
  message_too_large : Violation
  bad_message : ProtocolError → Violation

-- The frames that orjson writes.
pub record Replies : Type 0 where
  pub error_frame : Violation → Bytes
  pub pong_frame : ℤ → ℤ → Bytes

abbrev pub seen :
    {fl : Floats} → Result BBoxError (Connection fl) → Receiver fl → Bool × Receiver fl
seen (raise e) r = (false, r)
seen (ok connection) r = (true, record r { connection = connection })

module _ {fl : Floats} (replies : Replies) where
  -- `_reject`
  unfoldable pub reject : ℕ → Violation → Receiver fl → Bool × Receiver fl
  unfolding request_close send_control
  reject at violation r =
      let violations = popleft_before malformed_window at r.violations ++ (at ∷ []) in
      if ltb malformed_budget (length violations)
      then (
        false,
        record {
          connection =
              request_close close_protocol_error "too many malformed messages" r.connection;
          violations = violations;
        },
      )
      else (
        true,
        record {
          connection = send_control (replies.error_frame violation) r.connection;
          violations = violations;
        },
      )

  -- the `match` on what was parsed; a viewport that cannot be laid on the grid ends the reader
  unfoldable pub act :
      ℕ → ℤ → Result ProtocolError (ClientMessage fl) → Receiver fl → Bool × Receiver fl
  unfolding set_viewport send_control reject
  act at now_ms (raise error) r = reject at (bad_message error) r
  act at now_ms (ok (viewport_message bbox)) r = seen (set_viewport bbox r.connection) r
  act at now_ms (ok (ping_message t)) r =
      (true, record r { connection = send_control (replies.pong_frame t now_ms) r.connection })

  -- a turn of `_receive`, and whether it goes on
  unfoldable pub receive :
      Orjson fl → Casts fl → ℕ → ℤ → Incoming → Receiver fl → Bool × Receiver fl
  unfolding act reject parse_client_message
  receive o casts at now_ms gone r = (false, r)
  receive o casts at now_ms empty r = (true, r)
  receive o casts at now_ms (payload raw) r =
      if ltb max_client_message_bytes (length raw)
      then reject at message_too_large r
      else act at now_ms (parse_client_message casts o raw) r

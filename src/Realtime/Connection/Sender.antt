-- ===== src/Realtime/Connection/Sender.antt =====
-- src/geotrack/realtime/connection.py: the task that writes to the socket. What the socket does with
-- a frame is an input; UTF-8 and orjson are parameters.
pub mod Writes
use Prim.Native.String.{String}
use text.Mathlib.Text.{◌==◌ as str_eq}
use geotrack.Prelude.{
  ℕ, suc, ◌+◌, Bool, true, false, List, [], ◌∷◌, ◌++◌, Option, none, some, if◌then◌else◌, any, ◌==◌,
}
use geotrack.Prelude.Int.{ℤ}
use geotrack.Prelude.Text.{Bytes}
use geotrack.Float.{Floats}
use geotrack.Realtime.Protocol.{codes, close_slow_consumer}
use geotrack.Realtime.Connection.{Connection, request_close}

abbrev pub frame_type_prefix : Bytes
frame_type_prefix = codes "{\"type\":\""

abbrev pub frame_types : List Bytes
frame_types =
    codes "hello"
    ∷ codes "positions"
    ∷ codes "alert"
    ∷ codes "zone"
    ∷ codes "sessions"
    ∷ codes "stats"
    ∷ codes "pong"
    ∷ codes "error"
    ∷ codes "ack"
    ∷ codes "throttle"
    ∷ []

abbrev pub same_bytes : Bytes → Bytes → Bool
same_bytes [] [] = true
same_bytes (a ∷ xs) (b ∷ ys) = let rest = same_bytes xs ys in if a == b then rest else false
same_bytes _ _ = false

-- what follows a prefix
abbrev pub after_prefix : Bytes → Bytes → Option Bytes
after_prefix [] frame = some frame
after_prefix (p ∷ ps) [] = none
after_prefix (p ∷ ps) (b ∷ frame) =
    let rest = after_prefix ps frame in if p == b then rest else none

-- what stands before the next quote
abbrev pub before_quote : Bytes → Option Bytes
before_quote [] = none
before_quote (b ∷ frame) =
    let rest = before_quote frame in
    if b == 34 then some [] else elim rest [ none ↦ none | some kind ↦ some (b ∷ kind) ]

abbrev pub known_kind : Option Bytes → Option Bytes
known_kind none = none
known_kind (some kind) = if any (same_bytes kind) frame_types then some kind else none

abbrev pub kind_after : Option Bytes → Option Bytes
kind_after none = none
kind_after (some rest) = known_kind (before_quote rest)

abbrev pub or_parsed : Option Bytes → Bytes → Bytes
or_parsed none parsed = parsed
or_parsed (some kind) parsed = kind

-- `frame_type`, with `_parsed_frame_type` given
unfoldable pub frame_type : (Bytes → Bytes) → Bytes → Bytes
frame_type parsed_frame_type frame =
    or_parsed (kind_after (after_prefix frame_type_prefix frame)) (parsed_frame_type frame)

-- What the socket does with a frame in the time it has.
pub data Outcome : Type 0 where
  delivered timed_out disconnected : Outcome

-- how a frame is handed to the socket
pub data Handed : Type 0 where
  send_bytes send_text : Bytes → Handed

module _ {fl : Floats} where
  -- a try of the socket, with what it is handed
  unfoldable pub attempt : Outcome → Handed → Connection fl → Bool × Connection fl × List Handed
  unfolding request_close
  attempt delivered handed c = (true, c, handed ∷ [])
  attempt timed_out handed c = (
    false,
    request_close close_slow_consumer "write timed out"
        (record c { slow_disconnects = c.slow_disconnects + 1; writable = false }),
    handed ∷ [],
  )
  attempt disconnected handed c =
      (false, request_close 1000 "peer disconnected" (record c { writable = false }), handed ∷ [])

  module _ (parsed_frame_type : Bytes → Bytes) (is_utf_8 : Bytes → Bool) where
    -- `_write`: whether the sender goes on
    unfoldable pub write : Outcome → Bytes → Connection fl → Bool × Connection fl × List Handed
    unfolding attempt frame_type
    write outcome frame c =
        if c.writable
        then (if same_bytes (frame_type parsed_frame_type frame) (codes "positions")
            then attempt outcome (send_bytes frame) c
            else if is_utf_8 frame
            then attempt outcome (send_text frame) c
            else (true, c, []))
        else (false, c, [])

  -- `aclose`, whatever becomes of the close frame; whether one is sent
  unfoldable pub aclose : Connection fl → Bool × Connection fl
  aclose c = (c.writable, record c { closing = true; writable = false })

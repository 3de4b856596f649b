-- ===== src/Processor/Publisher.antt =====
-- src/geotrack/processor/publisher.py: `ResultPublisher`. What makes a frame of an alert, and what a
-- pipeline does, are parameters.
pub mod Chunks
use Prim.Native.String.{String}
use geotrack.Prelude.{
  ℕ, Bool, true, false, List, [], ◌∷◌, ◌++◌, Option, none, some, if◌then◌else◌, length, leb,
}
use geotrack.Prelude.Text.{Bytes}
use geotrack.Float.{Floats}
use geotrack.Processor.Tables.{Alert}
use geotrack.Processor.Batch.{BatchResult}
use geotrack.Realtime.Hub.{PositionItem}
use geotrack.Realtime.Bridge.{positions_channel, user_channel}
use geotrack.Messaging.Json.{Orjson}
use geotrack.Messaging.Codec.{encode_positions}

abbrev pub publish_chunk : ℕ
publish_chunk = 256

-- a channel and a payload
abbrev pub Message : Type 0
Message = String × Bytes

abbrev pub appended : {fl : Floats} → List Message → Alert fl → Option Bytes → List Message
appended waiting alert none = waiting
appended waiting alert (some frame) = waiting ++ ((user_channel alert.user_id, frame) ∷ [])

abbrev pub position_messages : {fl : Floats} → Orjson fl → List (PositionItem fl) → List Message
position_messages o [] = []
position_messages o (item ∷ items) = (positions_channel, encode_positions o (item ∷ items)) ∷ []

module _ {fl : Floats} (frame_for : Alert fl → Option Bytes) where
  -- the loop over the alerts, as the flushes it makes
  unfoldable pub flushes_from : List Message → List (Alert fl) → List (List Message)
  flushes_from [] [] = []
  flushes_from (m ∷ waiting) [] = (m ∷ waiting) ∷ []
  flushes_from waiting (alert ∷ alerts) =
      let more = appended waiting alert (frame_for alert) in
      if leb publish_chunk (length more)
      then more ∷ flushes_from [] alerts
      else flushes_from more alerts

  -- `_fan_out`
  unfoldable pub flushes : Orjson fl → BatchResult fl → List (List Message)
  unfolding flushes_from encode_positions
  flushes o result = flushes_from (position_messages o result.accepted) result.alerts

-- `none` if all of a pipeline runs, or what of it got out before it raised: then nothing more is
-- sent, and `publish` logs it.
unfoldable pub flush_all :
    (List Message → Option (List Message)) → List (List Message) → List Message
flush_all broken [] = []
flush_all broken (chunk ∷ chunks) = elim (broken chunk) [
  | some part ↦ part
  | none ↦ chunk ++ flush_all broken chunks
]

unfoldable pub publish :
    {fl : Floats}
    → (Alert fl → Option Bytes)
    → (List Message → Option (List Message))
    → Orjson fl
    → BatchResult fl
    → List Message
unfolding flushes flush_all
publish frame_for broken o result = flush_all broken (flushes frame_for o result)

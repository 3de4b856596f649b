-- ===== src/Realtime/Protocol.antt =====
-- src/geotrack/realtime/protocol.py: the position frame, put together from chunks.
use Prim.Native.Char.{code}
use Prim.Native.String.{String}
use geotrack.Prelude.{ℕ, Bool, List, [], ◌∷◌, if◌then◌else◌}
use geotrack.Prelude.Int.{ℤ}
use geotrack.Prelude.Text.{Bytes, join}
use geotrack.Float.{Floats}
use geotrack.Realtime.Hub.{PositionItem, DeviceId}

-- `CLOSE_SLOW_CONSUMER`, `CLOSE_UNAUTHORIZED`, `CLOSE_TOO_MANY_SESSIONS`, `CLOSE_PROTOCOL_ERROR`
abbrev pub close_slow_consumer : ℕ
close_slow_consumer = 1013

abbrev pub close_unauthorized : ℕ
close_unauthorized = 4401

abbrev pub close_too_many_sessions : ℕ
close_too_many_sessions = 4429

abbrev pub close_protocol_error : ℕ
close_protocol_error = 1008

-- What the frames take from orjson and from Python's `str`.
pub record Wire (fl : Floats) : Type 0 where
  -- `encode_position_item`
  pub encode : PositionItem fl → Bytes
  -- `_dumps` of a list of device ids
  pub dumps_ids : List DeviceId → Bytes
  -- `str(n).encode()`
  pub decimal : ℤ → Bytes

-- The code points of a literal, its bytes as it is ASCII.
abbrev pub codes : String → Bytes
codes String.[] = []
codes (String.◌∷◌ c s) = code c ∷ codes s

module _ {fl : Floats} (w : Wire fl) where
  unfoldable pub positions_frame : Bool → ℤ → List Bytes → List DeviceId → Bytes
  unfolding join
  positions_frame full t_ms item_chunks removed = join [] (
      codes "{\"type\":\"positions\",\"full\":"
      ∷ (if full then codes "true" else codes "false")
      ∷ codes ",\"t\":"
      ∷ w.decimal t_ms
      ∷ codes ",\"items\":["
      ∷ join (codes ",") item_chunks
      ∷ codes "],\"removed\":"
      ∷ w.dumps_ids removed
      ∷ codes "}"
      ∷ [])

-- ===== src/Realtime/Messages.antt =====
-- src/geotrack/realtime/protocol.py: `parse_client_message`, over what orjson reads.
use text.Mathlib.Text.{◌==◌ as str_eq}
use geotrack.Prelude.{Option, none, some, if◌then◌else◌}
use geotrack.Prelude.Int.{ℤ, pos}
use geotrack.Prelude.Result.{Result, ok, raise}
use geotrack.Prelude.Text.{Bytes}
use geotrack.Float.{Floats}
use geotrack.Geo.{BBox, BBoxError, make}
use geotrack.Messaging.Json.{Json, str, arr, obj, nil, cons, Fields, Orjson, get_field, as_int}
use geotrack.Messaging.Codec.{Casts}

pub data ClientMessage (fl : Floats) : Type 0 where
  viewport_message : BBox fl → ClientMessage fl
  ping_message : ℤ → ClientMessage fl

-- the messages of `ProtocolError`
pub data ProtocolError : Type 0 where
  invalid_json not_an_object not_four_values invalid_bbox not_an_integer unsupported : ProtocolError

module _ {fl : Floats} (casts : Casts fl) where
  abbrev pub translated : Result BBoxError (BBox fl) → Result ProtocolError (ClientMessage fl)
  translated (ok bbox) = ok (viewport_message bbox)
  translated (raise e) = raise invalid_bbox

  -- the four casts, and the checks of `BBox`
  abbrev pub box_of :
      Option fl.F
      → Option fl.F
      → Option fl.F
      → Option fl.F
      → Result ProtocolError (ClientMessage fl)
  box_of (some west) (some south) (some east) (some north) =
      translated (make fl west south east north)
  box_of _ _ _ _ = raise invalid_bbox

  unfoldable pub viewport_of : Option (Json fl) → Result ProtocolError (ClientMessage fl)
  unfolding make
  viewport_of (some (arr (cons west (cons south (cons east (cons north nil)))))) =
      box_of (casts.float_of west) (casts.float_of south) (casts.float_of east)
        (casts.float_of north)
  viewport_of _ = raise not_four_values

  abbrev pub ping_of_int : Option ℤ → Result ProtocolError (ClientMessage fl)
  ping_of_int none = raise not_an_integer
  ping_of_int (some t) = ok (ping_message t)

  -- `payload.get("t", 0)`
  unfoldable pub ping_of : Option (Json fl) → Result ProtocolError (ClientMessage fl)
  ping_of none = ok (ping_message (pos 0))
  ping_of (some t) = ping_of_int (as_int t)

  -- the `match` on the type
  unfoldable pub message_of : Option (Json fl) → Fields fl → Result ProtocolError (ClientMessage fl)
  unfolding viewport_of ping_of
  message_of (some (str kind)) fields =
      if str_eq kind "viewport"
      then viewport_of (get_field "bbox" fields)
      else if str_eq kind "ping"
      then ping_of (get_field "t" fields)
      else raise unsupported
  message_of _ fields = raise unsupported

  unfoldable pub parsed : Option (Json fl) → Result ProtocolError (ClientMessage fl)
  unfolding message_of
  parsed none = raise invalid_json
  parsed (some (obj fields)) = message_of (get_field "type" fields) fields
  parsed (some _) = raise not_an_object

  unfoldable pub parse_client_message : Orjson fl → Bytes → Result ProtocolError (ClientMessage fl)
  unfolding parsed
  parse_client_message o raw = parsed (o.loads raw)

-- ===== src/Messaging/Codec.antt =====
-- src/geotrack/messaging/codec.py: records on the ingest streams, and positions on their channel.
-- The proofs are in the modules below.
pub mod RoundTrip
use Prim.Native.String.{String}
use text.Mathlib.Text.{◌==◌ as str_eq}
use geotrack.Prelude.{
  Bool, true, false, not, ◌&&◌, List, [], ◌∷◌, Option, none, some, if◌then◌else◌, map,
}
use geotrack.Prelude.Int.{ℤ, pos, negsuc}
use geotrack.Prelude.Result.{Result, ok, raise, ◌>>=◌}
use geotrack.Prelude.Text.{Bytes}
use geotrack.Float.{Floats}
use geotrack.Realtime.Hub.{PositionItem}
use geotrack.Processor.Tables.{LocationRecord}
use geotrack.Messaging.Json.{
  Json, null, bool, int, num, str, arr, obj, Items, nil, cons, Fields, end, field, Orjson,
  get_field, to_items, as_int, as_number,
}

-- the messages of `CodecError`; `uncastable` is the `TypeError` or `ValueError` of a cast, which
-- `decode_positions` lets through
pub data CodecError : Type 0 where
  invalid_json not_five no_device_id not_numbers not_finite out_of_range not_integers : CodecError
  no_items not_four no_text uncastable : CodecError

-- `d` is a `str` that is not empty
abbrev pub as_device_id : {fl : Floats} → Json fl → Option String
as_device_id (str d) = if str_eq d "" then none else some d
as_device_id _ = none

abbrev pub in_range : (fl : Floats) → ℤ → ℤ → fl.F → Bool
in_range fl lo hi x = fl.le (fl.literal lo) x && fl.le x (fl.literal hi)

module _ {fl : Floats} where
  -- the checks on the two coordinates, then on the two times
  unfoldable pub checked :
      String → fl.F → fl.F → Option ℤ → Option ℤ → Result CodecError (LocationRecord fl)
  checked d lat lon reported received =
      if not (fl.is_finite lat && fl.is_finite lon)
      then raise not_finite
      else if not (in_range fl (negsuc 89) (pos 90) lat && in_range fl (negsuc 179) (pos 180) lon)
      then raise out_of_range
      else elim reported [
        | none ↦ raise not_integers
        | some reported_ms ↦ elim received [
          | none ↦ raise not_integers
          | some received_ms ↦ ok (record {
            device_id = d;
            lat = lat;
            lon = lon;
            reported_ms = reported_ms;
            received_ms = received_ms;
          })
        ]
      ]

  unfoldable pub decode_fields :
      Json fl → Json fl → Json fl → Json fl → Json fl → Result CodecError (LocationRecord fl)
  decode_fields d lat lon reported received = elim (as_device_id d) [
    | none ↦ raise no_device_id
    | some device_id ↦ elim (as_number lat) [
      | none ↦ raise not_numbers
      | some x ↦ elim (as_number lon) [
        | none ↦ raise not_numbers
        | some y ↦ checked device_id x y (as_int reported) (as_int received)
      ]
    ]
  ]

  -- `device_id, lat, lon, reported_ms, received_ms = payload`
  unfoldable pub decode_list : Items fl → Result CodecError (LocationRecord fl)
  unfolding decode_fields checked
  decode_list (cons d (cons lat (cons lon (cons reported (cons received nil))))) =
      decode_fields d lat lon reported received
  decode_list _ = raise not_five

  unfoldable pub decode_payload : Option (Json fl) → Result CodecError (LocationRecord fl)
  unfolding decode_list
  decode_payload none = raise invalid_json
  decode_payload (some (arr items)) = decode_list items
  decode_payload (some _) = raise not_five

  abbrev pub record_json : LocationRecord fl → Json fl
  record_json r = arr (
      to_items
        (str r.device_id ∷ num r.lat ∷ num r.lon ∷ int r.reported_ms ∷ int r.received_ms ∷ []))

  abbrev pub item_json : PositionItem fl → Json fl
  item_json i = arr (to_items (str i.device_id ∷ num i.lat ∷ num i.lon ∷ int i.reported_ms ∷ []))

  abbrev pub positions_json : List (PositionItem fl) → Json fl
  positions_json items = obj (field "items" (arr (to_items (map item_json items))) end)

  module _ (o : Orjson fl) where
    unfoldable pub decode_record : Bytes → Result CodecError (LocationRecord fl)
    unfolding decode_payload
    decode_record raw = decode_payload (o.loads raw)

    unfoldable pub encode_record : LocationRecord fl → Bytes
    encode_record r = o.dumps (record_json r)

    unfoldable pub encode_positions : List (PositionItem fl) → Bytes
    encode_positions items = o.dumps (positions_json items)

-- Python's `float(x)` and `int(x)` on what JSON gives, `none` where they raise.
pub record Casts (fl : Floats) : Type 0 where
  pub float_of : Json fl → Option fl.F
  pub int_of : Json fl → Option ℤ

module _ {fl : Floats} (casts : Casts fl) where
  unfoldable pub decode_item : Json fl → Result CodecError (PositionItem fl)
  decode_item (arr (cons (str d) (cons lat (cons lon (cons reported nil))))) =
      elim (casts.float_of lat) [
        | none ↦ raise uncastable
        | some x ↦ elim (casts.float_of lon) [
          | none ↦ raise uncastable
          | some y ↦ elim (casts.int_of reported) [
            | none ↦ raise uncastable
            | some t ↦ ok (record { device_id = d; lat = x; lon = y; reported_ms = t })
          ]
        ]
      ]
  decode_item (arr (cons _ (cons _ (cons _ (cons _ nil))))) = raise no_text
  decode_item _ = raise not_four

  unfoldable pub decode_items : Items fl → Result CodecError (List (PositionItem fl))
  unfolding decode_item
  decode_items nil = ok []
  decode_items (cons j js) = do item ← decode_item j; items ← decode_items js; ok (item ∷ items)

  abbrev pub items_in : Option (Json fl) → Option (Items fl)
  items_in (some (arr items)) = some items
  items_in _ = none

  abbrev pub items_field : Json fl → Option (Items fl)
  items_field (obj fs) = items_in (get_field "items" fs)
  items_field _ = none

  unfoldable pub decode_positions : Orjson fl → Bytes → Result CodecError (List (PositionItem fl))
  unfolding decode_items
  decode_positions o raw = elim (o.loads raw) [
    | none ↦ raise invalid_json
    | some payload ↦ elim (items_field payload) [
      | none ↦ raise no_items
      | some items ↦ decode_items items
    ]
  ]

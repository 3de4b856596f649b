-- ===== src/Messaging/Codec/RoundTrip.antt =====
-- What one process writes, the other reads; and what it reads is in range.
use Prim.Native.String.{String}
use text.Mathlib.Text.{◌==◌ as str_eq}
use geotrack.Prelude.{
  ◌≡◌, refl, true, false, List, [], ◌∷◌, Option, none, some, map, arith, inl, inr, Option-cases,
}
use geotrack.Prelude.Int.{ℤ, pos, negsuc}
use geotrack.Prelude.Result.{ok}
use geotrack.Prelude.Text.{Bytes}
use geotrack.Float.{Floats}
use geotrack.Realtime.Hub.{PositionItem}
use geotrack.Processor.Tables.{LocationRecord}
use geotrack.Messaging.Json.{
  Json, null, bool, int, num, str, arr, nil, cons, Orjson, Fits64, ReadsBack, Writable,
  WritableItems, to_items, as_int, as_number, obj,
}
use geotrack.Messaging.Codec.{
  Casts, as_device_id, decode_fields, in_range, checked, decode_payload, decode_record,
  encode_record, record_json, decode_items, decode_positions, encode_positions, item_json,
  positions_json,
}

-- A record that the stream may carry.
pub record IsRecord {fl : Floats} (r : LocationRecord fl) : Type 0 where
  pub named : str_eq r.device_id "" ≡ false
  pub finite : (fl.is_finite r.lat ≡ true) × (fl.is_finite r.lon ≡ true)
  pub latitude : in_range fl (negsuc 89) (pos 90) r.lat ≡ true
  pub longitude : in_range fl (negsuc 179) (pos 180) r.lon ≡ true

-- The times of a record are in 64 bits.
pub record HasStamps {fl : Floats} (r : LocationRecord fl) : Type 0 where
  pub reported : Fits64 r.reported_ms
  pub received : Fits64 r.received_ms

module _ {fl : Floats} where
  as_device_id-named : (j : Json fl) (d : String) → as_device_id j ≡ some d → str_eq d "" ≡ false
  as_device_id-named (str s) d h = ground arith
  as_device_id-named null d h = cc
  as_device_id-named (bool b) d h = cc
  as_device_id-named (int n) d h = cc
  as_device_id-named (num x) d h = cc
  as_device_id-named (arr xs) d h = cc
  as_device_id-named (obj fs) d h = cc

  checked-IsRecord :
      (d : String) (x y : fl.F) (t u : Option ℤ) (r : LocationRecord fl)
      → str_eq d "" ≡ false
      → checked d x y t u ≡ ok r
      → IsRecord r
  unfolding checked
  checked-IsRecord d x y t u r named h = ground arith

  decode_fields-IsRecord :
      (d lat lon t u : Json fl) (r : LocationRecord fl)
      → decode_fields d lat lon t u ≡ ok r
      → IsRecord r
  unfolding decode_fields
  decode_fields-IsRecord d lat lon t u r h = elim (Option-cases (as_device_id d)) [
    | inl n ↦ absurd (ground arith)
    | inr (s, e) ↦ elim (Option-cases (as_number lat)) [
      | inl n ↦ absurd (ground arith)
      | inr (x, f) ↦ elim (Option-cases (as_number lon)) [
        | inl n ↦ absurd (ground arith)
        | inr (y, g) ↦
            checked-IsRecord s x y (as_int t) (as_int u) r (as_device_id-named d s e)
              (rw (e, f, g, decode_fields) at h)
      ]
    ]
  ]

  decode_payload-IsRecord :
      (payload : Option (Json fl)) (r : LocationRecord fl)
      → decode_payload payload ≡ ok r
      → IsRecord r
  unfolding decode_payload
  decode_payload-IsRecord none r h = cc
  decode_payload-IsRecord (some (arr (cons d (cons lat (cons lon (cons t (cons u nil))))))) r h =
      decode_fields-IsRecord d lat lon t u r h
  decode_payload-IsRecord (some _) r h = cc

  record_json-decoded :
      (r : LocationRecord fl) → IsRecord r → decode_payload (some (record_json r)) ≡ ok r
  unfolding decode_payload
  record_json-decoded r v = ground arith

-- The casts keep what already has their type.
pub record KeepsTyped {fl : Floats} (casts : Casts fl) : Type 0 where
  pub of_float : (x : fl.F) → casts.float_of (num x) ≡ some x
  pub of_int : (n : ℤ) → casts.int_of (int n) ≡ some n

-- Coordinates are finite, and times in 64 bits.
abbrev pub AllWritable : {fl : Floats} → List (PositionItem fl) → Type 0
AllWritable [] = Unit
AllWritable {fl} (i ∷ items) =
    ((fl.is_finite i.lat ≡ true) × (fl.is_finite i.lon ≡ true) × Fits64 i.reported_ms)
    × AllWritable items

module _ {fl : Floats} where
  record_json-Writable :
      (r : LocationRecord fl) → IsRecord r → HasStamps r → Writable (record_json r)
  unfolding Writable
  record_json-Writable r v s = (tt, (v.finite.0, (v.finite.1, (s.reported, (s.received, tt)))))

  items_json-Writable :
      (items : List (PositionItem fl))
      → AllWritable items
      → WritableItems (to_items (map item_json items))
  unfolding Writable
  items_json-Writable [] v = tt
  items_json-Writable (i ∷ items) v =
      ((tt, (v.0.0, (v.0.1, (v.0.2, tt)))), items_json-Writable items v.1)

  positions_json-Writable :
      (items : List (PositionItem fl)) → AllWritable items → Writable (positions_json items)
  unfolding Writable
  positions_json-Writable items v = (items_json-Writable items v, tt)

  decode_items-items_json :
      (casts : Casts fl) (items : List (PositionItem fl))
      → KeepsTyped casts
      → decode_items casts (to_items (map item_json items)) ≡ ok items
  unfolding decode_items
  decode_items-items_json casts [] k = refl
  decode_items-items_json casts (i ∷ items) k =
      rw
        (
          k.of_float i.lat,
          k.of_float i.lon,
          k.of_int i.reported_ms,
          decode_items-items_json casts items k,
        )
        refl

-- A record that the edge writes on a stream is read from it as it was, if its device has a name and
-- its coordinates are finite and in range, its times are in 64 bits, and orjson reads back what it
-- writes.
pub decode_record-encode_record :
    {fl : Floats} (o : Orjson fl) (r : LocationRecord fl)
    → ReadsBack o
    → IsRecord r
    → HasStamps r
    → decode_record o (encode_record o r) ≡ ok r
unfolding decode_record encode_record
decode_record-encode_record o r back v s =
    rw (back (record_json r) (record_json-Writable r v s)) (record_json-decoded r v)

-- Whatever bytes stand on a stream, a record that is read from them names its device and has
-- finite coordinates in range.
pub decode_record-IsRecord :
    {fl : Floats} (o : Orjson fl) (raw : Bytes) (r : LocationRecord fl)
    → decode_record o raw ≡ ok r
    → IsRecord r
unfolding decode_record
decode_record-IsRecord o raw r h = decode_payload-IsRecord (o.loads raw) r h

-- The positions that a processor publishes reach a gateway as they were, in their order, if their
-- coordinates are finite and their times in 64 bits, orjson reads back what it writes, and the casts
-- keep what has its type.
pub decode_positions-encode_positions :
    {fl : Floats} (o : Orjson fl) (casts : Casts fl) (items : List (PositionItem fl))
    → ReadsBack o
    → KeepsTyped casts
    → AllWritable items
    → decode_positions casts o (encode_positions o items) ≡ ok items
unfolding decode_positions encode_positions
decode_positions-encode_positions o casts items back k v =
    let read = back (positions_json items) (positions_json-Writable items v) in
    rw (read, decode_positions) (decode_items-items_json casts items k)

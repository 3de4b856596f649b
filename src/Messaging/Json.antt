-- ===== src/Messaging/Json.antt =====
-- What orjson reads and writes, which the repository does not implement: Python's values for JSON,
-- and the two functions that its code calls.
use Prim.Native.String.{String}
use text.Mathlib.Text.{◌==◌ as str_eq}
use geotrack.Prelude.{Bool, true, false, ◌≡◌, List, [], ◌∷◌, Option, none, some, if◌then◌else◌}
use geotrack.Prelude.Int.{ℤ, pos, negsuc, ◌≤ℤ◌}
use geotrack.Prelude.Text.{Bytes}
use geotrack.Float.{Floats}

mutual
  pub data Json (fl : Floats) : Type 0 where
    null : Json fl
    bool : Bool → Json fl
    int : ℤ → Json fl
    num : fl.F → Json fl
    str : String → Json fl
    arr : Items fl → Json fl
    obj : Fields fl → Json fl

  pub data Items (fl : Floats) : Type 0 where
    nil : Items fl
    cons : Json fl → Items fl → Items fl

  pub data Fields (fl : Floats) : Type 0 where
    end : Fields fl
    field : String → Json fl → Fields fl → Fields fl

-- `orjson.loads`, with `none` for its `JSONDecodeError`, and `orjson.dumps` on what it takes
pub record Orjson (fl : Floats) : Type 0 where
  pub loads : Bytes → Option (Json fl)
  pub dumps : Json fl → Bytes

-- the integers that orjson takes, which are those of 64 bits
abbrev pub Fits64 : ℤ → Type 0
Fits64 n = (negsuc 9_223_372_036_854_775_807 ≤ℤ n) × (n ≤ℤ pos 18_446_744_073_709_551_615)

module _ {fl : Floats} where
  -- `payload.get(key)`
  abbrev pub get_field : String → Fields fl → Option (Json fl)
  get_field k end = none
  get_field k (field j v fs) = if str_eq j k then some v else get_field k fs

  -- the values of a list
  abbrev pub to_items : List (Json fl) → Items fl
  to_items [] = nil
  to_items (j ∷ js) = cons j (to_items js)

  -- `isinstance(x, int)`, which a `bool` is too, with its value
  abbrev pub as_int : Json fl → Option ℤ
  as_int (int n) = some n
  as_int (bool true) = some (pos 1)
  as_int (bool false) = some (pos 0)
  as_int _ = none

  -- `float(x)` of an `int | float`, and `none` for any other type
  abbrev pub as_number : Json fl → Option fl.F
  as_number (num x) = some x
  as_number (int n) = some (fl.literal n)
  as_number (bool true) = some (fl.literal (pos 1))
  as_number (bool false) = some (fl.literal (pos 0))
  as_number _ = none

  -- What orjson writes: integers of 64 bits, signed or not, and finite numbers.
  unfoldable mutual
    pub Writable : Json fl → Type 0
    Writable null = Unit
    Writable (bool b) = Unit
    Writable (int n) = Fits64 n
    Writable (num x) = fl.is_finite x ≡ true
    Writable (str s) = Unit
    Writable (arr xs) = WritableItems xs
    Writable (obj fs) = WritableFields fs

    pub WritableItems : Items fl → Type 0
    WritableItems nil = Unit
    WritableItems (cons x xs) = Writable x × WritableItems xs

    pub WritableFields : Fields fl → Type 0
    WritableFields end = Unit
    WritableFields (field k v fs) = Writable v × WritableFields fs

-- orjson reads back what it wrote, of the values that it takes.
abbrev pub ReadsBack : {fl : Floats} → Orjson fl → Type 0
ReadsBack {fl} o = (j : Json fl) → Writable j → o.loads (o.dumps j) ≡ some j

-- ===== src/Tests/Postfix.antt =====
-- An orjson for the tests: JSON in postfix order, as numbers, read back by a machine with a stack.
use Prim.Native.Char.{Char, char, code, IsScalar}
use Prim.Native.String.{String}
use Prim.Native.Nat.{compare, Ordering}
use text.Mathlib.TextEquality.{Char-path}
use mathlib.Core.List.{append_assoc, append-nil}
use geotrack.Prelude.{
  ℕ, ◌≡◌, refl, ap, true, false, List, [], ◌∷◌, ◌++◌, Option, none, some, get_elem?, arith,
}
use geotrack.Prelude.Int.{pos, negsuc}
use geotrack.Prelude.Text.{Bytes}
use geotrack.Messaging.Json.{
  Json, null, bool, int, num, str, arr, obj, Items, nil, cons, Fields, end, field, Orjson,
  ReadsBack,
}
use geotrack.Tests.Realtime.{integers}

middle :
    (n : ℕ) (o p : Ordering)
    → compare n 55296 ≡ Ordering.gt
    → compare 57343 n ≡ o
    → compare n 1114112 ≡ p
    → Option Char
middle n Ordering.lt Ordering.lt h k l = some (char n (rw (h, k, l) tt))
middle n _ _ h k l = none

to_char_at : (n : ℕ) (o : Ordering) → compare n 55296 ≡ o → Option Char
to_char_at n Ordering.lt h = some (char n (rw h tt))
to_char_at n Ordering.eq h = none
to_char_at n Ordering.gt h = middle n (compare 57343 n) (compare n 1114112) h refl refl

middle_code :
    (n : ℕ) (s : IsScalar n) (o p : Ordering) (h : compare n 55296 ≡ Ordering.gt)
    (k : compare 57343 n ≡ o) (l : compare n 1114112 ≡ p)
    → middle n o p h k l ≡ some (char n s)
unfolding middle
middle_code n s Ordering.lt Ordering.lt h k l = ap some (Char-path _ _ refl)
middle_code n s Ordering.lt Ordering.eq h k l = absurd (rw (h, k, l) at s)
middle_code n s Ordering.lt Ordering.gt h k l = absurd (rw (h, k, l) at s)
middle_code n s Ordering.eq p h k l = absurd (rw (h, k) at s)
middle_code n s Ordering.gt p h k l = absurd (rw (h, k) at s)

to_char_code :
    (n : ℕ) (s : IsScalar n) (o : Ordering) (h : compare n 55296 ≡ o)
    → to_char_at n o h ≡ some (char n s)
unfolding to_char_at
to_char_code n s Ordering.lt h = ap some (Char-path _ _ refl)
to_char_code n s Ordering.eq h =
    let above : compare 57343 n ≡ Ordering.gt = ground (arith, h) in absurd (rw (h, above) at s)
to_char_code n s Ordering.gt h = middle_code n s (compare 57343 n) (compare n 1114112) h refl refl

abbrev to_char : ℕ → Option Char
to_char n = to_char_at n (compare n 55296) refl

to_char_lem : (c : Char) → to_char (code c) ≡ some c
to_char_lem (char n s) = to_char_code n s (compare n 55296) refl

-- what stands on the stack
data Value : Type 0 where
  json : Json integers → Value
  items : Items integers → Value
  fields : Fields integers → Value

abbrev push_char : Option Char → List Value → List Value
push_char (some c) (json (str s) ∷ st) = json (str (String.◌∷◌ c s)) ∷ st
push_char _ st = st

data Op : Type 0 where
  put_null put_true put_false put_pos put_negsuc put_num_pos put_num_negsuc put_text add_char : Op
  put_nil add_item make_arr put_end add_field make_obj skip : Op

abbrev ops : List Op
ops =
    put_null ∷ put_true ∷ put_false ∷ put_pos ∷ put_negsuc ∷ put_num_pos ∷ put_num_negsuc ∷ put_text
    ∷ add_char ∷ put_nil ∷ add_item ∷ make_arr ∷ put_end ∷ add_field ∷ make_obj ∷ []

abbrev op_or_skip : Option Op → Op
op_or_skip none = skip
op_or_skip (some op) = op

abbrev step : Op → ℕ → List Value → List Value
step put_null n st = json null ∷ st
step put_true n st = json (bool true) ∷ st
step put_false n st = json (bool false) ∷ st
step put_pos n st = json (int (pos n)) ∷ st
step put_negsuc n st = json (int (negsuc n)) ∷ st
step put_num_pos n st = json (num (pos n)) ∷ st
step put_num_negsuc n st = json (num (negsuc n)) ∷ st
step put_text n st = json (str "") ∷ st
step add_char n st = push_char (to_char n) st
step put_nil n st = items nil ∷ st
step add_item n (json j ∷ items js ∷ st) = items (cons j js) ∷ st
step make_arr n (items js ∷ st) = json (arr js) ∷ st
step put_end n st = fields end ∷ st
step add_field n (json (str k) ∷ json v ∷ fields fs ∷ st) = fields (field k v fs) ∷ st
step make_obj n (fields fs ∷ st) = json (obj fs) ∷ st
step _ n st = st

abbrev machine : Bytes → List Value → List Value
machine (op ∷ n ∷ rest) st = machine rest (step (op_or_skip (get_elem? ops op)) n st)
machine _ st = st

abbrev dump_string : String → Bytes
dump_string String.[] = 7 ∷ 0 ∷ []
dump_string (String.◌∷◌ c s) = dump_string s ++ (8 ∷ code c ∷ [])

unfoldable mutual
  dump : Json integers → Bytes
  dump null = 0 ∷ 0 ∷ []
  dump (bool true) = 1 ∷ 0 ∷ []
  dump (bool false) = 2 ∷ 0 ∷ []
  dump (int (pos n)) = 3 ∷ n ∷ []
  dump (int (negsuc n)) = 4 ∷ n ∷ []
  dump (num (pos n)) = 5 ∷ n ∷ []
  dump (num (negsuc n)) = 6 ∷ n ∷ []
  dump (str s) = dump_string s
  dump (arr js) = dump_items js ++ (11 ∷ 0 ∷ [])
  dump (obj fs) = dump_fields fs ++ (14 ∷ 0 ∷ [])

  dump_items : Items integers → Bytes
  dump_items nil = 9 ∷ 0 ∷ []
  dump_items (cons j js) = dump_items js ++ (dump j ++ (10 ∷ 0 ∷ []))

  dump_fields : Fields integers → Bytes
  dump_fields end = 12 ∷ 0 ∷ []
  dump_fields (field k v fs) = dump_fields fs ++ (dump v ++ (dump_string k ++ (13 ∷ 0 ∷ [])))

machine-dump_string :
    (s : String) (rest : Bytes) (st : List Value)
    → machine (dump_string s ++ rest) st ≡ machine rest (json (str s) ∷ st)
machine-dump_string String.[] rest st = refl
machine-dump_string (String.◌∷◌ c s) rest st =
    rw (append_assoc, machine-dump_string s, to_char_lem c) refl

mutual
  unfolding dump

  machine-dump :
      (j : Json integers) (rest : Bytes) (st : List Value)
      → machine (dump j ++ rest) st ≡ machine rest (json j ∷ st)
  machine-dump null rest st = refl
  machine-dump (bool true) rest st = refl
  machine-dump (bool false) rest st = refl
  machine-dump (int (pos n)) rest st = refl
  machine-dump (int (negsuc n)) rest st = refl
  machine-dump (num (pos n)) rest st = refl
  machine-dump (num (negsuc n)) rest st = refl
  machine-dump (str s) rest st = machine-dump_string s rest st
  machine-dump (arr js) rest st = rw (append_assoc, machine-dump_items js) refl
  machine-dump (obj fs) rest st = rw (append_assoc, machine-dump_fields fs) refl

  machine-dump_items :
      (js : Items integers) (rest : Bytes) (st : List Value)
      → machine (dump_items js ++ rest) st ≡ machine rest (items js ∷ st)
  machine-dump_items nil rest st = refl
  machine-dump_items (cons j js) rest st =
      rw (append_assoc, machine-dump_items js, append_assoc, machine-dump j) refl

  machine-dump_fields :
      (fs : Fields integers) (rest : Bytes) (st : List Value)
      → machine (dump_fields fs ++ rest) st ≡ machine rest (fields fs ∷ st)
  machine-dump_fields end rest st = refl
  machine-dump_fields (field k v fs) rest st =
      rw
        (
          append_assoc,
          machine-dump_fields fs,
          append_assoc,
          machine-dump v,
          append_assoc,
          machine-dump_string k,
        )
        refl

abbrev top : List Value → Option (Json integers)
top (json j ∷ []) = some j
top _ = none

pub postfix : Orjson integers
unfolding dump
postfix = record { loads = λ raw. top (machine raw []); dumps = dump }

pub postfix-ReadsBack : ReadsBack postfix
unfolding postfix
postfix-ReadsBack j w = rw (← append-nil (dump j), machine-dump j [] []) refl

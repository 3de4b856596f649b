-- ===== src/Tests/Consumer.antt =====
-- A consumer whose stream is the list of its pending entries.
use geotrack.Prelude.{
  ℕ, ◌*◌, ◌≡◌, refl, true, false, List, [], ◌∷◌, ◌++◌, Option, none, some, take, arith,
}
use geotrack.Prelude.Int.{pos, ◌+ℤ◌, ◌-ℤ◌}
use geotrack.Prelude.Dict.{get}
use geotrack.Prelude.Text.{Bytes, String-discrete}
use geotrack.Prelude.Result.{Result, ok}
use geotrack.Processor.Tables.{LocationRecord, Tables, Database}
use geotrack.Processor.Batch.{
  Answer, BatchResult, apply, apply_storable, split_storable, unstorable_reason,
}
use geotrack.Messaging.Json.{Json, Orjson}
use geotrack.Messaging.Codec.{record_json, decode_record}
use geotrack.Processor.Consumer.{
  StreamEntry, Stream, Cursor, pending, new, created, acked, start, handle, batch_result, decode,
  publishes, ReadFailure, rejected_letters, write_letters,
}
use geotrack.Processor.Consumer.Pending.{stops, rounds, IsSettled, start-IsSettled}
use geotrack.Processor.Consumer.Leaves.{without, Documented}
use geotrack.Processor.Consumer.Letters.{
  answers, settling, undecodable_letters, unstorable_letters, handle-settles,
}
use geotrack.Tests.Realtime.{integers}

abbrev truck : LocationRecord integers
truck = record {
  device_id = "truck";
  lat = pos 10;
  lon = pos 10;
  reported_ms = pos 1_000;
  received_ms = pos 1_100;
}

-- every payload that is not empty is the truck's report
abbrev one_record : Bytes → Option (Json integers)
one_record [] = none
one_record (b ∷ bs) = some (record_json truck)

abbrev reader : Orjson integers
reader = record { loads = one_record; dumps = λ j. [] }

abbrev good : StreamEntry
good = ("1-0", ("r", 65 ∷ []) ∷ [])

abbrev bare : StreamEntry
bare = ("2-0", [])

abbrev read :
    Cursor → ℕ → List StreamEntry → Result ReadFailure (List StreamEntry) × List StreamEntry
read pending count s = (ok (take count s), s)
read new count s = (ok (good ∷ []), s ++ (good ∷ []))

abbrev store : Stream (List StreamEntry)
store = record {
  entries_pending = λ s. s;
  xgroup_create = λ s. (created, s);
  xreadgroup = read;
  xlen = λ s. ok 0;
  xackdel = λ ids s. (acked, without ids s);
  xack_xdel = λ ids s. (true, without ids s);
}

store-Documented : Documented store
store-Documented = record {
  read_pending = λ count s entries h. (cc, refl);
  read_new = λ count s entries h. cc;
  xackdel_acked = λ ids s h. refl;
  xackdel_unknown = λ ids s h. cc;
  xack_xdel_done = λ ids s h. refl;
}

abbrev tables : Tables integers
tables = record {
  device_positions = [];
  geozones = [];
  zone_presence = [];
  alerts = [];
  next_alert = 1;
  location_history = [];
}

abbrev nowhere : Database integers
nowhere = record {
  overlaps = λ z lat lon. false;
  within = λ z lat lon. false;
  before = λ a b. true;
  alert_id = λ n. n * 2;
}

abbrev database : ℕ → Answer (Tables integers)
database n = ok tables

settled :
    let o =
      answers nowhere
        (pos 2_592_000_000)
        1
        60
        5
        database
        store
        reader
        (some true)
        (λ letters. true) in
    (handle store reader o (good ∷ bare ∷ []) start (good ∷ bare ∷ [])).0 ≡ true
unfolding handle decode decode_record get String-discrete apply apply_storable split_storable
    unstorable_reason rejected_letters write_letters start
settled = refl

-- a month later, with a day of history kept: the truck's report is too old
handle-settles_example :
    let o =
      answers nowhere
        (pos 2_592_000_000)
        1
        60
        5
        database
        store
        reader
        (some true)
        (λ letters. true) in
    (result : BatchResult integers) × (batch_result o (decode reader (good ∷ bare ∷ [])).0
      ≡ some result)
    × ((handle store reader o (good ∷ bare ∷ []) start (good ∷ bare ∷ [])).3
        ≡ publishes result
          ∷ settling
              (undecodable_letters reader (good ∷ bare ∷ [])
                ++ unstorable_letters reader
                    (pos 2_592_000_000 -ℤ pos (1 * 86_400_000))
                    (pos 2_592_000_000 +ℤ pos (60 * 1_000))
                    (good ∷ bare ∷ []))
              ("1-0" ∷ "2-0" ∷ []))
handle-settles_example =
    handle-settles nowhere (pos 2_592_000_000) 1 60 5 database store reader (some true)
      (λ letters. true) (good ∷ bare ∷ []) start (good ∷ bare ∷ []) settled

start-IsSettled_example :
    let (c', s') = rounds store reader 10 (stops ∷ []) start [] in IsSettled store c' s'
start-IsSettled_example =
    start-IsSettled store reader 10 (stops ∷ []) [] store-Documented (omega arith)

-- ===== src/Processor/Consumer.antt =====
-- src/geotrack/processor/consumer.py: `ShardConsumer`, which takes a shard's entries from its stream.
-- Redis is a parameter: what it answers to each command, and the stream that it keeps.
pub mod Letters
pub mod Leaves
pub mod Pending
use Prim.Native.String.{String}
use geotrack.Prelude.{
  ℕ, ◌*◌, min, Bool, true, false, List, [], ◌∷◌, ◌++◌, Option, none, some, if◌then◌else◌, map,
  get_elem?,
}
use geotrack.Prelude.Dict.{Dict, get}
use geotrack.Prelude.Result.{Result, ok, raise}
use geotrack.Prelude.Text.{Bytes, String-discrete}
use geotrack.Float.{Floats}
use geotrack.Processor.Tables.{LocationRecord}
use geotrack.Processor.Batch.{BatchResult, Rejected, Reason}
use geotrack.Messaging.Json.{Orjson}
use geotrack.Messaging.Codec.{CodecError, decode_record, encode_record}

abbrev pub backoff_min_ms : ℕ
backoff_min_ms = 250

abbrev pub backoff_max_ms : ℕ
backoff_max_ms = 2_000

-- an entry's id and its fields
abbrev pub StreamEntry : Type 0
StreamEntry = String × Dict String Bytes

-- the text of a dead letter: the codec's message or the batch's reason
pub data LetterError : Type 0 where
  undecodable : CodecError → LetterError
  unstorable : Reason → LetterError

pub record DeadLetter : Type 0 where
  pub entry_id : String
  pub raw : Bytes
  pub error : LetterError

pub data Cursor : Type 0 where
  pending new : Cursor

-- where `run` stands: it waits for its group, reads from a cursor, or has returned
pub data Phase : Type 0 where
  creating : Phase
  reading : Cursor → Phase
  stopped : Phase

pub record Consumer : Type 0 where
  pub phase : Phase
  pub stopping : Bool
  pub backoff_ms : ℕ
  pub supports_xackdel : Bool

pub data GroupReply : Type 0 where
  created busy_group failed : GroupReply

pub data ReadFailure : Type 0 where
  response_error redis_error : ReadFailure

pub data AckReply : Type 0 where
  acked unknown_command refused : AckReply

-- What the consumer asks of the stream that Redis keeps in `S`. `entries_pending` is what is
-- delivered to its name and not acknowledged.
pub record Stream (S : Type 0) : Type 0 where
  pub entries_pending : S → List StreamEntry
  pub xgroup_create : S → GroupReply × S
  pub xreadgroup : Cursor → ℕ → S → Result ReadFailure (List StreamEntry) × S
  pub xlen : S → Result ReadFailure ℕ
  pub xackdel : List String → S → AckReply × S
  -- `XACK` and `XDEL` in one pipeline, and whether it was answered
  pub xack_xdel : List String → S → Bool × S

-- What else a round meets: the renewal of the lease and the batch's transaction, `none` where they
-- raise, and whether the dead letters were written.
pub record Answers (fl : Floats) : Type 0 where
  pub renewal : Option Bool
  pub commit : List (LocationRecord fl) → Option (BatchResult fl)
  pub letters_written : List DeadLetter → Bool

-- What a batch does to the outside, in order.
pub data Effect (fl : Floats) : Type 0 where
  publishes : BatchResult fl → Effect fl
  dead_letters : List DeadLetter → Effect fl
  acknowledges : List String → Effect fl

abbrev pub nothing_applied : {fl : Floats} → BatchResult fl
nothing_applied = record { accepted = []; alerts = []; stale = 0; rejected = [] }

unfoldable pub start : Consumer
start = record {
  phase = creating;
  stopping = false;
  backoff_ms = backoff_min_ms;
  supports_xackdel = true;
}

unfoldable pub request_stop : Consumer → Consumer
request_stop c = record c { stopping = true }

-- `_sleep_backoff`, without the wait
unfoldable pub sleep_backoff : Consumer → Consumer
sleep_backoff c = record c { backoff_ms = min (c.backoff_ms * 2) backoff_max_ms }

abbrev pub or_nothing : Option Bytes → Bytes
or_nothing none = []
or_nothing (some raw) = raw

-- `fields.get(STREAM_FIELD, b"")`
abbrev pub raw_of : StreamEntry → Bytes
raw_of (id, fields) = or_nothing (get String-discrete "r" fields)

module _ {fl : Floats} (o : Orjson fl) where
  abbrev pub Decoded : Type 0
  Decoded = List (LocationRecord fl) × List String × List DeadLetter

  unfoldable pub decode : List StreamEntry → Decoded
  decode [] = ([], [], [])
  decode (entry ∷ entries) =
      let (records, sources, dead) = decode entries in
      elim (decode_record o (raw_of entry)) [
        | raise e ↦ (
          records,
          sources,
          record { entry_id = entry.0; raw = raw_of entry; error = undecodable e } ∷ dead,
        )
        | ok r ↦ (r ∷ records, entry.0 ∷ sources, dead)
      ]

  -- the dead letters of the reports that the batch rejected; `none` is an `IndexError`
  unfoldable pub rejected_letters : List String → List (Rejected fl) → Option (List DeadLetter)
  unfolding encode_record
  rejected_letters sources [] = some []
  rejected_letters sources ((index, r, reason) ∷ rejected) = elim (get_elem? sources index) [
    | none ↦ none
    | some id ↦ elim (rejected_letters sources rejected) [
      | none ↦ none
      | some letters ↦
          some
            (record { entry_id = id; raw = encode_record o r; error = unstorable reason } ∷ letters)
    ]
  ]

-- the handler of any failure of a batch, or of Redis
unfoldable pub retry_pending : Consumer → Consumer
unfolding sleep_backoff
retry_pending c = sleep_backoff (record c { phase = reading pending })

abbrev pub with_xlen :
    Result ReadFailure (List StreamEntry)
    → Result ReadFailure ℕ
    → Result ReadFailure (List StreamEntry)
with_xlen (raise e) length = raise e
with_xlen (ok entries) (raise e) = raise e
with_xlen (ok entries) (ok backlog) = ok entries

module _ {fl : Floats} where
  abbrev pub batch_result : Answers fl → List (LocationRecord fl) → Option (BatchResult fl)
  batch_result answers [] = some nothing_applied
  batch_result answers (r ∷ records) = answers.commit (r ∷ records)

module _ {fl : Floats} {S : Type 0} where
  -- the rest of a round once `_handle` is through
  unfoldable pub after_handle :
      Bool × Consumer × S × List (Effect fl) → Consumer × S × List (Effect fl)
  unfolding retry_pending
  after_handle (true, c, s, log) = (record c { backoff_ms = backoff_min_ms }, s, log)
  after_handle (false, c, s, log) = (retry_pending c, s, log)

module _ {S : Type 0} (stream : Stream S) where
  unfoldable pub acknowledge_fallback : List String → Consumer → S → Bool × Consumer × S
  acknowledge_fallback ids c s = let (done, s') = stream.xack_xdel ids s in (done, c, s')

  -- `_acknowledge`, and whether it returned
  unfoldable pub acknowledge : List String → Consumer → S → Bool × Consumer × S
  unfolding acknowledge_fallback
  acknowledge ids c s =
      if c.supports_xackdel
      then (let (reply, s') = stream.xackdel ids s in
          elim reply [
            | acked ↦ (true, c, s')
            | refused ↦ (false, c, s')
            | unknown_command ↦ acknowledge_fallback ids (record c { supports_xackdel = false }) s'
          ])
      else acknowledge_fallback ids c s

  -- `_create_group_when_ready`, one attempt
  unfoldable pub create_group : Consumer → S → Consumer × S
  unfolding sleep_backoff
  create_group c s =
      let (reply, s') = stream.xgroup_create s in
      elim reply [
        | failed ↦ (sleep_backoff c, s')
        | created ↦ (record c { phase = reading pending; backoff_ms = backoff_min_ms }, s')
        | busy_group ↦ (record c { phase = reading pending; backoff_ms = backoff_min_ms }, s')
      ]

  module _ {fl : Floats} (o : Orjson fl) where
    -- The results say whether `_handle` returned, what it leaves, and what it did outside.
    unfoldable pub finish :
        List String → List (Effect fl) → Consumer → S → Bool × Consumer × S × List (Effect fl)
    unfolding acknowledge
    finish ids log c s =
        let (done, c', s') = acknowledge ids c s in
        (done, c', s', if done then log ++ acknowledges ids ∷ [] else log)

    unfoldable pub write_letters :
        Answers fl
        → List DeadLetter
        → List String
        → List (Effect fl)
        → Consumer
        → S
        → Bool × Consumer × S × List (Effect fl)
    unfolding finish
    write_letters answers [] ids log c s = finish ids log c s
    write_letters answers (letter ∷ letters) ids log c s =
        if answers.letters_written (letter ∷ letters)
        then finish ids (log ++ dead_letters (letter ∷ letters) ∷ []) c s
        else (false, c, s, log)

    unfoldable pub handle :
        Answers fl → List StreamEntry → Consumer → S → Bool × Consumer × S × List (Effect fl)
    handle answers entries c s =
        let (records, sources, dead) = decode o entries in
        elim (batch_result answers records) [
          | none ↦ (false, c, s, [])
          | some result ↦ elim (rejected_letters o sources result.rejected) [
            | none ↦ (false, c, s, publishes result ∷ [])
            | some letters ↦
                write_letters answers (dead ++ letters) (map (λ e. e.0) entries)
                  (publishes result ∷ []) c s
          ]
        ]

    -- a round with entries: `_still_leased`, then `_handle`
    unfoldable pub take_entries :
        Answers fl → List StreamEntry → Consumer → S → Consumer × S × List (Effect fl)
    unfolding retry_pending
    take_entries answers entries c s = elim answers.renewal [
      | none ↦ (retry_pending c, s, [])
      | some false ↦ (record c { phase = stopped; stopping = true }, s, [])
      | some true ↦ after_handle (handle answers entries c s)
    ]

    -- after `XLEN`: its failure is handled as that of the read
    unfoldable pub read_through :
        Answers fl
        → ℕ
        → Result ReadFailure (List StreamEntry)
        → Consumer
        → S
        → Consumer × S × List (Effect fl)
    unfolding retry_pending
    read_through answers count (raise response_error) c s = (record c { phase = creating }, s, [])
    read_through answers count (raise redis_error) c s = (retry_pending c, s, [])
    read_through answers count (ok []) c s = (record c { phase = reading new }, s, [])
    read_through answers count (ok (entry ∷ entries)) c s =
        take_entries answers (entry ∷ entries) c s

    unfoldable pub read_once :
        Answers fl → ℕ → Cursor → Consumer → S → Consumer × S × List (Effect fl)
    read_once answers count cursor c s =
        let (entries, s') = stream.xreadgroup cursor count s in
        read_through answers count (with_xlen entries (stream.xlen s')) c s'

    unfoldable pub in_phase :
        Answers fl → ℕ → Phase → Consumer → S → Consumer × S × List (Effect fl)
    unfolding read_once
    in_phase answers count stopped c s = (c, s, [])
    in_phase answers count creating c s = let (c', s') = create_group c s in (c', s', [])
    in_phase answers count (reading cursor) c s = read_once answers count cursor c s

    -- One round of the loops of `run`, with `count` the size of a batch.
    unfoldable pub round : Answers fl → ℕ → Consumer → S → Consumer × S × List (Effect fl)
    unfolding in_phase
    round answers count c s =
        if c.stopping
        then (record c { phase = stopped }, s, [])
        else in_phase answers count c.phase c s

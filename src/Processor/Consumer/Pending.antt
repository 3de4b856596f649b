-- ===== src/Processor/Consumer/Pending.antt =====
-- A shard's consumer reads new entries only when it has none left to settle.
use Prim.Native.String.{String}
use geotrack.Prelude.{
  ℕ, zero, suc, ◌≤◌, ◌<◌, ◌≡◌, refl, sym, ap, ◌∙◌, Bool, true, false, List, [], ◌∷◌, ◌++◌,
  if◌then◌else◌, map, take, arith, inl, inr, Option-cases,
}
use geotrack.Prelude.Result.{Result, ok, raise}
use geotrack.Float.{Floats}
use geotrack.Messaging.Json.{Orjson}
use geotrack.Processor.Consumer.{
  StreamEntry, Cursor, pending, new, Phase, creating, reading, stopped, Consumer, Stream, Answers,
  Effect, ReadFailure, response_error, redis_error, backoff_min_ms, backoff_max_ms, start,
  request_stop, create_group, handle, take_entries, after_handle, read_through, read_once, in_phase,
  round, with_xlen,
}
use geotrack.Processor.Consumer.Leaves.{without, without_self, Documented, Leaves, handle-Leaves}

-- The facts of a consumer that every round keeps.
pub record IsSettled {S : Type 0} (stream : Stream S) (c : Consumer) (s : S) : Type 0 where
  pub caught_up : c.phase ≡ reading new → stream.entries_pending s ≡ []
  pub backoff : (backoff_min_ms ≤ c.backoff_ms) × (c.backoff_ms ≤ backoff_max_ms)

module _ {S : Type 0} (stream : Stream S) (laws : Documented stream) where
  module _ {fl : Floats} (o : Orjson fl) (answers : Answers fl) where
    InBounds : Consumer → Type 0
    InBounds c = (backoff_min_ms ≤ c.backoff_ms) × (c.backoff_ms ≤ backoff_max_ms)

    after_handle-IsSettled :
        (ids : List String) (c : Consumer) (s : S) (r : Bool × Consumer × S × List (Effect fl))
        → InBounds c
        → (c.phase ≡ reading new → without ids (stream.entries_pending s) ≡ [])
        → Leaves stream ids c s r
        → let (c', s', log) = after_handle r in IsSettled stream c' s'
    unfolding after_handle InBounds
    after_handle-IsSettled ids c s (true, c', s', log) b h leaves = record {
      caught_up = λ p. leaves.2 refl ∙ h (sym leaves.0 ∙ p);
      backoff = omega arith;
    }
    after_handle-IsSettled ids c s (false, c', s', log) b h leaves = record {
      caught_up = λ p. cc;
      backoff = ground (arith, leaves, b);
    }

    take_entries-IsSettled :
        (entries : List StreamEntry) (c : Consumer) (s : S)
        → InBounds c
        → (c.phase ≡ reading new → stream.entries_pending s ≡ entries)
        → let (c', s', log) = take_entries stream o answers entries c s in IsSettled stream c' s'
    unfolding take_entries InBounds
    take_entries-IsSettled entries c s b h = elim (Option-cases answers.renewal) [
      | inl raised ↦
          rw (raised, take_entries) (record { caught_up = λ p. cc; backoff = ground (arith, b) })
      | inr (true, held) ↦
          rw (held, take_entries)
            (after_handle-IsSettled (map (λ e. e.0) entries) c s
              (handle stream o answers entries c s) b (λ p. rw (h p) (without_self entries))
              (handle-Leaves stream laws o answers entries c s))
      | inr (false, lost) ↦ rw (lost, take_entries) (record { caught_up = λ p. cc; backoff = b })
    ]

    read_through-IsSettled :
        (count : ℕ) (entries : Result ReadFailure (List StreamEntry)) (c : Consumer) (s : S)
        → InBounds c
        → (entries ≡ ok [] → stream.entries_pending s ≡ [])
        → ((es : List StreamEntry)
            → entries ≡ ok es
            → c.phase ≡ reading new
            → stream.entries_pending s ≡ es)
        → let (c', s', log) = read_through stream o answers count entries c s in
          IsSettled stream c' s'
    unfolding read_through InBounds
    read_through-IsSettled count (raise response_error) c s b h k = record {
      caught_up = λ p. cc;
      backoff = b;
    }
    read_through-IsSettled count (raise redis_error) c s b h k = record {
      caught_up = λ p. cc;
      backoff = ground (arith, b);
    }
    read_through-IsSettled count (ok []) c s b h k = record { caught_up = λ p. h refl; backoff = b }
    read_through-IsSettled count (ok (e ∷ es)) c s b h k =
        take_entries-IsSettled (e ∷ es) c s b (λ p. k (e ∷ es) refl p)

    with_xlen-ok :
        (entries : Result ReadFailure (List StreamEntry)) (length : Result ReadFailure ℕ)
        (es : List StreamEntry)
        → with_xlen entries length ≡ ok es
        → entries ≡ ok es
    with_xlen-ok (raise e) length es h = cc
    with_xlen-ok (ok entries) (raise e) es h = cc
    with_xlen-ok (ok entries) (ok n) es h = h

    take-nil : (count : ℕ) (es : List StreamEntry) → 0 < count → take count es ≡ [] → es ≡ []
    take-nil zero es h e = absurd (omega (arith, h))
    take-nil (suc n) [] h e = refl
    take-nil (suc n) (x ∷ es) h e = cc

    read_once-IsSettled :
        (count : ℕ) (cursor : Cursor) (c : Consumer) (s : S)
        → 0 < count
        → c.phase ≡ reading cursor
        → IsSettled stream c s
        → let (c', s', log) = read_once stream o answers count cursor c s in IsSettled stream c' s'
    unfolding read_once InBounds
    read_once-IsSettled count pending c s n at v =
        let (entries, s') = stream.xreadgroup pending count s in
        let whole = with_xlen entries (stream.xlen s') in
        read_through-IsSettled count whole c s' v.backoff
          (λ e.
            let (taken, kept) =
              laws.read_pending count s [] (with_xlen-ok entries (stream.xlen s') [] e) in
            kept ∙ take-nil count (stream.entries_pending s) n (sym taken))
          (λ es e p. cc)
    read_once-IsSettled count new c s n at v =
        let (entries, s') = stream.xreadgroup new count s in
        let whole = with_xlen entries (stream.xlen s') in
        let grown : (es : List StreamEntry) → whole ≡ ok es → stream.entries_pending s' ≡ es =
          λ es e.
            laws.read_new count s es (with_xlen-ok entries (stream.xlen s') es e)
            ∙ ap (λ ps. ps ++ es) (v.caught_up at) in
        read_through-IsSettled count whole c s' v.backoff (λ e. grown [] e) (λ es e p. grown es e)

    create_group-IsSettled :
        (c : Consumer) (s : S)
        → c.phase ≡ creating
        → IsSettled stream c s
        → let (c', s') = create_group stream c s in IsSettled stream c' s'
    unfolding create_group
    create_group-IsSettled c s at v = ground (arith, v.backoff)

    abbrev Settles : Consumer × S × List (Effect fl) → Type 0
    Settles (c, s, log) = IsSettled stream c s

    if-IsSettled :
        (b : Bool) (x y : Consumer × S × List (Effect fl))
        → Settles x
        → Settles y
        → Settles (if b then x else y)
    if-IsSettled true x y h k = h
    if-IsSettled false x y h k = k

    in_phase-IsSettled :
        (count : ℕ) (phase : Phase) (c : Consumer) (s : S)
        → 0 < count
        → c.phase ≡ phase
        → IsSettled stream c s
        → let (c', s', log) = in_phase stream o answers count phase c s in IsSettled stream c' s'
    unfolding in_phase
    in_phase-IsSettled count creating c s n at v = create_group-IsSettled c s at v
    in_phase-IsSettled count (reading cursor) c s n at v =
        read_once-IsSettled count cursor c s n at v
    in_phase-IsSettled count stopped c s n at v = v

    round-IsSettled :
        (count : ℕ) (c : Consumer) (s : S)
        → 0 < count
        → IsSettled stream c s
        → let (c', s', log) = round stream o answers count c s in IsSettled stream c' s'
    unfolding round
    round-IsSettled count c s n v =
        if-IsSettled c.stopping (record c { phase = stopped }, s, [])
          (in_phase stream o answers count c.phase c s)
          (record { caught_up = λ p. cc; backoff = v.backoff })
          (in_phase-IsSettled count c.phase c s n refl v)

-- What a consumer meets: a request to stop, or a round with what Redis and the database answer.
pub data Input (fl : Floats) : Type 0 where
  stops : Input fl
  answered : Answers fl → Input fl

module _ {S : Type 0} (stream : Stream S) {fl : Floats} (o : Orjson fl) (count : ℕ) where
  pub rounds : List (Input fl) → Consumer → S → Consumer × S
  rounds [] c s = (c, s)
  rounds (stops ∷ inputs) c s = rounds inputs (request_stop c) s
  rounds (answered answers ∷ inputs) c s =
      let (c', s', log) = round stream o answers count c s in rounds inputs c' s'

  rounds-IsSettled :
      (laws : Documented stream) (inputs : List (Input fl)) (c : Consumer) (s : S)
      → 0 < count
      → IsSettled stream c s
      → let (c', s') = rounds inputs c s in IsSettled stream c' s'
  unfolding rounds request_stop
  rounds-IsSettled laws [] c s n v = v
  rounds-IsSettled laws (stops ∷ inputs) c s n v =
      rounds-IsSettled laws inputs (request_stop c) s n
        (record { caught_up = v.caught_up; backoff = v.backoff })
  rounds-IsSettled laws (answered answers ∷ inputs) c s n v =
      let (c', s', log) = round stream o answers count c s in
      rounds-IsSettled laws inputs c' s' n (round-IsSettled stream laws o answers count c s n v)

  -- However a consumer's rounds go from its start, whatever Redis and the database answer and
  -- whenever it is stopped, it reads new entries only while no entry that was delivered to it is
  -- left unacknowledged, and its back-off stays between its bounds; for a stream that does what
  -- Redis documents, and batches of at least one entry.
  pub start-IsSettled :
      (inputs : List (Input fl)) (s : S)
      → Documented stream
      → 0 < count
      → let (c', s') = rounds inputs start s in IsSettled stream c' s'
  unfolding start
  start-IsSettled inputs s laws n =
      rounds-IsSettled laws inputs start s n (record { caught_up = λ p. cc; backoff = omega arith })

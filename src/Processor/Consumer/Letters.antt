-- ===== src/Processor/Consumer/Letters.antt =====
-- What becomes of each entry of a batch.
use Prim.Native.String.{String}
use mathlib.Core.List.{append_assoc}
use geotrack.Prelude.{
  ℕ, suc, ◌*◌, ◌≡◌, refl, sym, ◌∙◌, ap, Bool, true, List, [], ◌∷◌, ◌++◌, ◌⊎◌, Option, none, some,
  map, get_elem?, length, arith, inl, inr, Bool-cases, Option-cases, length-append,
}
use geotrack.Prelude.Int.{ℤ, pos, ◌+ℤ◌, ◌-ℤ◌}
use geotrack.Prelude.Result.{Result, ok, raise}
use geotrack.Float.{Floats}
use geotrack.Processor.Tables.{LocationRecord, Tables, Database}
use geotrack.Processor.Batch.{
  apply, apply_storable, finished, committed, attempt_from, Answer, BatchResult, Rejected,
  unstorable_reason, split_from, split_storable,
}
use geotrack.Messaging.Json.{Orjson}
use geotrack.Messaging.Codec.{CodecError, decode_record, encode_record}
use geotrack.Processor.Consumer.{
  StreamEntry, Consumer, Stream, Answers, Effect, publishes, dead_letters, acknowledges, DeadLetter,
  undecodable, unstorable, decode, rejected_letters, batch_result, handle, write_letters, finish,
  raw_of,
}

module _ {fl : Floats} (o : Orjson fl) where
  -- the dead letters of the entries that hold no record
  abbrev pub undecodable_letters : List StreamEntry → List DeadLetter
  undecodable_letters [] = []
  undecodable_letters (entry ∷ entries) =
      let rest = undecodable_letters entries in
      elim (decode_record o (raw_of entry)) [
        | ok r ↦ rest
        | raise e ↦ record { entry_id = entry.0; raw = raw_of entry; error = undecodable e } ∷ rest
      ]

  Result-cases :
      (entry : StreamEntry)
      → ((e : CodecError) × (decode_record o (raw_of entry) ≡ raise e))
        ⊎ ((r : LocationRecord fl) × (decode_record o (raw_of entry) ≡ ok r))
  Result-cases entry = split (decode_record o (raw_of entry))
    where
      split :
          (x : Result CodecError (LocationRecord fl))
          → ((e : CodecError) × (x ≡ raise e)) ⊎ ((r : LocationRecord fl) × (x ≡ ok r))
      split (raise e) = inl (e, refl)
      split (ok r) = inr (r, refl)

  decode_dead : (entries : List StreamEntry) → (decode o entries).2 ≡ undecodable_letters entries
  unfolding decode
  decode_dead [] = refl
  decode_dead (entry ∷ entries) = ground (arith, decode_dead entries)

module _ {fl : Floats} (o : Orjson fl) (oldest newest : ℤ) where
  -- the dead letters of the entries whose record the schema cannot hold
  abbrev pub unstorable_letters : List StreamEntry → List DeadLetter
  unstorable_letters [] = []
  unstorable_letters (entry ∷ entries) =
      let rest = unstorable_letters entries in
      elim (decode_record o (raw_of entry)) [
        | raise e ↦ rest
        | ok r ↦ elim (unstorable_reason oldest newest r) [
          | none ↦ rest
          | some why ↦
              record { entry_id = entry.0; raw = encode_record o r; error = unstorable why } ∷ rest
        ]
      ]

  get_elem?-here :
      (before : List String) (id : String) (after : List String)
      → get_elem? (before ++ id ∷ after) (length before) ≡ some id
  get_elem?-here [] id after = refl
  get_elem?-here (x ∷ before) id after = get_elem?-here before id after

  rejected_letters-split_from :
      (before : List String) (entries : List StreamEntry)
      → let (records, sources, dead) = decode o entries in
        rejected_letters o (before ++ sources) (split_from oldest newest (length before) records).1
        ≡ some (unstorable_letters entries)
  unfolding decode rejected_letters split_from
  rejected_letters-split_from before [] = refl
  rejected_letters-split_from before (entry ∷ entries) = elim (Result-cases o entry) [
    | inl (e, bad) ↦
        rw (bad, decode, unstorable_letters) (rejected_letters-split_from before entries)
    | inr (r, good) ↦
        let (records, sources, dead) = decode o entries in
        let grown : length (before ++ entry.0 ∷ []) ≡ suc (length before) =
          omega (arith, length-append before (entry.0 ∷ [])) in
        let after : (before ++ entry.0 ∷ []) ++ sources ≡ before ++ entry.0 ∷ sources =
          append_assoc before (entry.0 ∷ []) sources in
        let rest : rejected_letters o (before ++ entry.0 ∷ sources)
              (split_from oldest newest (suc (length before)) records).1
            ≡ some (unstorable_letters entries) =
          rw (← after, ← grown) (rejected_letters-split_from (before ++ entry.0 ∷ []) entries) in
        rw (good, decode, unstorable_letters)
          (ground (arith, rest, get_elem?-here before entry.0 sources))
  ]

-- what `apply` gives the consumer, `none` where it raises
abbrev pub commit_of :
    {fl : Floats} → Option (Answer (BatchResult fl × Option (Tables fl))) → Option (BatchResult fl)
commit_of none = none
commit_of (some (raise sqlstate)) = none
commit_of (some (ok (result, tables))) = some result

-- the last effects of a batch
abbrev pub settling : {fl : Floats} → List DeadLetter → List String → List (Effect fl)
settling [] ids = acknowledges ids ∷ []
settling (letter ∷ letters) ids = dead_letters (letter ∷ letters) ∷ acknowledges ids ∷ []

module _ {fl : Floats} (db : Database fl) (now : ℤ) (days skew_s max_attempts : ℕ)
    (tables : ℕ → Answer (Tables fl)) where
  abbrev pub batch : List (LocationRecord fl) → Option (BatchResult fl)
  batch records = commit_of (apply db now days skew_s max_attempts tables records)

  finished_rejected :
      (storable : List (LocationRecord fl)) (rejected : List (Rejected fl))
      (x : Option (Answer (Tables fl))) (result : BatchResult fl)
      → commit_of (finished db now storable rejected x) ≡ some result
      → result.rejected ≡ rejected
  unfolding finished committed
  finished_rejected storable rejected none result h = cc
  finished_rejected storable rejected (some (raise e)) result h = cc
  finished_rejected storable rejected (some (ok t)) result h = ground arith

  apply_storable_rejected :
      (parts : List (LocationRecord fl) × List (Rejected fl)) (result : BatchResult fl)
      → commit_of (apply_storable db now max_attempts tables parts) ≡ some result
      → result.rejected ≡ parts.1
  unfolding apply_storable
  apply_storable_rejected ([], rejected) result h = ground arith
  apply_storable_rejected (r ∷ storable, rejected) result h =
      finished_rejected (r ∷ storable) rejected
        (attempt_from tables max_attempts (suc max_attempts) 0) result h

  batch_rejected :
      (records : List (LocationRecord fl)) (result : BatchResult fl)
      → batch records ≡ some result
      → result.rejected ≡ (split_storable now days skew_s records).1
  unfolding apply
  batch_rejected records result h =
      apply_storable_rejected (split_storable now days skew_s records) result h

  module _ {S : Type 0} (stream : Stream S) (o : Orjson fl) (renewal : Option Bool)
      (written : List DeadLetter → Bool) where
    abbrev pub answers : Answers fl
    answers = record { renewal = renewal; commit = batch; letters_written = written }

    -- what `_handle` leaves behind when it returns
    abbrev Settled :
        List DeadLetter
        → List String
        → BatchResult fl
        → Bool × Consumer × S × List (Effect fl)
        → Type 0
    Settled letters ids result (done, c, s, log) =
        done ≡ true → log ≡ publishes result ∷ settling letters ids

    finish-Settled :
        (ids : List String) (log : List (Effect fl)) (c : Consumer) (s : S)
        → let (done, c', s', log') = finish stream o ids log c s in
          done ≡ true → log' ≡ log ++ acknowledges ids ∷ []
    unfolding finish
    finish-Settled ids log c s h = rw h refl

    write_letters-Settled :
        (letters : List DeadLetter) (ids : List String) (result : BatchResult fl) (c : Consumer)
        (s : S)
        → Settled letters ids result
            (write_letters stream o answers letters ids (publishes result ∷ []) c s)
    unfolding write_letters
    write_letters-Settled [] ids result c s = finish-Settled ids (publishes result ∷ []) c s
    write_letters-Settled (letter ∷ letters) ids result c s =
        elim (Bool-cases (written (letter ∷ letters))) [
          | inl done ↦
              rw done
                (finish-Settled ids (publishes result ∷ dead_letters (letter ∷ letters) ∷ []) c s)
          | inr lost ↦ rw lost (λ h. cc)
        ]

    -- the batch's result of the decoded records
    batch_result_rejected :
        (records : List (LocationRecord fl)) (result : BatchResult fl)
        → batch_result answers records ≡ some result
        → result.rejected ≡ (split_storable now days skew_s records).1
    unfolding split_storable split_from
    batch_result_rejected [] result h = ground arith
    batch_result_rejected (r ∷ records) result h = batch_rejected (r ∷ records) result h

    abbrev oldest : ℤ
    oldest = now -ℤ pos (days * 86_400_000)

    abbrev newest : ℤ
    newest = now +ℤ pos (skew_s * 1_000)

    abbrev all_letters : List StreamEntry → List DeadLetter
    all_letters entries =
        undecodable_letters o entries ++ unstorable_letters o oldest newest entries

    handle-raised :
        (entries : List StreamEntry) (c : Consumer) (s : S)
        → batch_result answers (decode o entries).0 ≡ none
        → (handle stream o answers entries c s).0 ≡ true
        → ⊥
    unfolding handle
    handle-raised entries c s raised h = ground arith

    handle-applied :
        (entries : List StreamEntry) (c : Consumer) (s : S) (result : BatchResult fl)
        → batch_result answers (decode o entries).0 ≡ some result
        → handle stream o answers entries c s
          ≡ write_letters stream o answers
              (all_letters entries)
              (map (λ e. e.0) entries)
              (publishes result ∷ [])
              c
              s
    unfolding handle split_storable
    handle-applied entries c s result applied =
        let rejected = batch_result_rejected (decode o entries).0 result applied in
        let found : rejected_letters o (decode o entries).1 result.rejected
            ≡ some (unstorable_letters o oldest newest entries) =
          rw rejected (rejected_letters-split_from o oldest newest [] entries) in
        rw (applied, found, handle, ← decode_dead o entries) refl

    -- A batch of entries that is handled to its end has these effects, in this order: the result
    -- of the batch of the decoded records is published; the entries that hold no record, and then
    -- those whose record the schema cannot hold, are written as dead letters, each under its own
    -- id and with the reason; and the ids of all entries are acknowledged.
    pub handle-settles :
        (entries : List StreamEntry) (c : Consumer) (s : S)
        → (handle stream o answers entries c s).0 ≡ true
        → (result : BatchResult fl) × (batch_result answers (decode o entries).0 ≡ some result)
          × ((handle stream o answers entries c s).3
              ≡ publishes result
                ∷ settling
                    (undecodable_letters o entries
                      ++ unstorable_letters o
                          (now -ℤ pos (days * 86_400_000))
                          (now +ℤ pos (skew_s * 1_000))
                          entries)
                    (map (λ e. e.0) entries))
    handle-settles entries c s h = elim (Option-cases (batch_result answers (decode o entries).0)) [
      | inl raised ↦ absurd (handle-raised entries c s raised h)
      | inr (result, applied) ↦
          let same = handle-applied entries c s result applied in
          (
            result,
            applied,
            ap (λ r. r.3) same
                ∙ write_letters-Settled (all_letters entries) (map (λ e. e.0) entries) result c s
                    (ap (λ r. r.0) (sym same) ∙ h),
          )
    ]

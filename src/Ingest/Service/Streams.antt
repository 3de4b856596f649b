-- ===== src/Ingest/Service/Streams.antt =====
-- Where the reports of a batch go, and what the consumer of a stream will read there.
use mathlib.Core.List.{append-nil, map-append}
use geotrack.Prelude.{
  ℕ, ◌%◌, ◌<◌, ◌≡◌, refl, ap, sym, ◌∙◌, Bool, false, List, [], ◌∷◌, ◌++◌, map, if◌then◌else◌,
  length, ltb, ◌==◌, select, All, Bool-cases, inl, inr, arith,
}
use geotrack.Prelude.Int.{ℤ}
use geotrack.Prelude.Result.{ok}
use geotrack.Prelude.Text.{Bytes}
use geotrack.Float.{Floats}
use geotrack.Messaging.Json.{ReadsBack}
use geotrack.Messaging.Codec.{encode_record, decode_record}
use geotrack.Messaging.Codec.RoundTrip.{IsRecord, HasStamps, decode_record-encode_record}
use geotrack.Ingest.Backlog.{BacklogMonitor}
use geotrack.Ingest.Schemas.{LocationReport}
use geotrack.Ingest.Service.{
  Transport, Append, executed, finish, Edge, Service, shard_for, record_of, commands_of, written,
  submit,
}

-- the payloads of one stream, oldest first
abbrev pub stream : ℕ → List Append → List Bytes
stream k [] = []
stream k (e ∷ es) = let rest = stream k es in if e.shard == k then e.payload ∷ rest else rest

stream-append : (k : ℕ) (es fs : List Append) → stream k (es ++ fs) ≡ stream k es ++ stream k fs
stream-append k [] fs = refl
stream-append k (e ∷ es) fs = ground (arith, stream-append k es fs)

module _ {fl : Floats} (service : Service fl) where
  abbrev pub goes_to : ℕ → LocationReport fl → Bool
  goes_to k r = service.crc32 r.device_id % service.shards == k

  abbrev pub command : ℤ → LocationReport fl → Append
  command now r = record {
    shard = service.crc32 r.device_id % service.shards;
    payload = encode_record service.orjson (record_of service now r);
  }

  pub commands_of-map :
      (now : ℤ) (rs : List (LocationReport fl))
      → 0 < service.shards
      → commands_of service now rs ≡ ok (map (command now) rs)
  unfolding commands_of shard_for
  commands_of-map now [] h = refl
  commands_of-map now (r ∷ rs) h =
      let few : ltb service.shards 1 ≡ false = ground (arith, h) in
      rw (few, commands_of-map now rs h) refl

  stream-command :
      (k : ℕ) (now : ℤ) (rs : List (LocationReport fl))
      → stream k (map (command now) rs)
        ≡ map (λ r. encode_record service.orjson (record_of service now r)) (select (goes_to k) rs)
  stream-command k now [] = refl
  stream-command k now (r ∷ rs) = elim (Bool-cases (goes_to k r)) [
    | inl e ↦ rw (e, stream-command k now rs) refl
    | inr e ↦ rw (e, stream-command k now rs) refl
  ]

  -- While the gate is open and there is at least one shard, and the pipeline runs, every report of
  -- a batch is accepted; each stream gets, after what it held and in the order of the batch, the
  -- encoded records of exactly those reports whose device has its number as the remainder of the
  -- checksum; and no report is counted as rejected.
  pub submit-stream :
      (backlog : BacklogMonitor) (now : ℤ) (rs : List (LocationReport fl)) (t : Transport)
      (s : Edge)
      → 0 < service.shards
      → backlog.throttled ≡ false
      → let (result, s') = submit service backlog now executed rs t s in
        (result ≡ ok (length rs))
        × ((k : ℕ)
            → stream k s'.entries
              ≡ stream k s.entries
                ++ map
                    (λ r. encode_record service.orjson (record_of service now r))
                    (select (goes_to k) rs))
        × (s'.rejected ≡ s.rejected)
  unfolding submit
  submit-stream backlog now [] t s h shut =
      (refl, (λ k. sym (append-nil (stream k s.entries))), refl)
  submit-stream backlog now (r ∷ rs) t s h shut =
      rw (shut, commands_of-map now (r ∷ rs) h)
        (unfold written finish in
          (
            refl,
            (λ k.
                stream-append k s.entries (map (command now) (r ∷ rs))
                ∙ ap (λ ys. stream k s.entries ++ ys) (stream-command k now (r ∷ rs))),
            refl,
          ))

  decoded-map :
      (rs : List (LocationReport fl)) (now : ℤ) (k : ℕ)
      → ReadsBack service.orjson
      → All (λ r. IsRecord (record_of service now r)) rs
      → All (λ r. HasStamps (record_of service now r)) rs
      → map (decode_record service.orjson) (
          map (λ r. encode_record service.orjson (record_of service now r)) (select (goes_to k) rs))
        ≡ map (λ r. ok (record_of service now r)) (select (goes_to k) rs)
  decoded-map [] now k reads v s = refl
  decoded-map (r ∷ rs) now k reads v s = elim (Bool-cases (goes_to k r)) [
    | inl e ↦
        rw
          (
            e,
            decode_record-encode_record service.orjson (record_of service now r) reads v.0 s.0,
            decoded-map rs now k reads v.1 s.1,
          )
          refl
    | inr e ↦ rw (e, decoded-map rs now k reads v.1 s.1) refl
  ]

  -- While the gate is open and there is at least one shard, and the pipeline runs, the consumer of
  -- each stream that read what stood there reads on with the records of the reports of the batch
  -- whose devices belong to it, unchanged and in their order, if orjson reads back what it writes,
  -- and every report names its device, has finite coordinates in range, and has times in 64 bits.
  pub submit-decode_record :
      (backlog : BacklogMonitor) (now : ℤ) (rs : List (LocationReport fl)) (t : Transport)
      (s : Edge)
      → 0 < service.shards
      → backlog.throttled ≡ false
      → ReadsBack service.orjson
      → All (λ r. IsRecord (record_of service now r)) rs
      → All (λ r. HasStamps (record_of service now r)) rs
      → (k : ℕ)
      → map
          (decode_record service.orjson)
          (stream k ((submit service backlog now executed rs t s).1).entries)
        ≡ map (decode_record service.orjson) (stream k s.entries)
          ++ map (λ r. ok (record_of service now r)) (select (goes_to k) rs)
  submit-decode_record backlog now rs t s h shut reads v stamps k =
      rw
        (
          (submit-stream backlog now rs t s h shut).1 k,
          map-append,
          decoded-map rs now k reads v stamps,
        )
        refl

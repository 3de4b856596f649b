-- ===== src/Processor/Consumer/Leaves.antt =====
-- What a batch leaves on a stream that does what Redis documents.
use Prim.Native.String.{String}
use geotrack.Prelude.{
  ℕ, ◌≡◌, refl, Bool, true, List, [], ◌∷◌, ◌++◌, map, take, select, not, arith, In, here, there,
  inl, inr, Bool-cases, Option-cases,
}
use geotrack.Prelude.Index.{member}
use geotrack.Prelude.Result.{ok}
use geotrack.Prelude.Text.{String-discrete as same_id}
use geotrack.Float.{Floats}
use geotrack.Messaging.Json.{Orjson}
use geotrack.Processor.Consumer.{
  StreamEntry, dead_letters, publishes, pending, new, Consumer, Stream, Answers, Effect, acked,
  unknown_command, DeadLetter, acknowledge, finish, write_letters, handle, decode, batch_result,
  rejected_letters,
}

-- the entries that are left once some are acknowledged
abbrev pub without : List String → List StreamEntry → List StreamEntry
without ids entries = select (λ e. not (member same_id e.0 ids)) entries

-- What the documentation of Redis says of streams.
pub record Documented {S : Type 0} (stream : Stream S) : Type 0 where
  pub read_pending :
      (count : ℕ) (s : S) (entries : List StreamEntry)
      → (stream.xreadgroup pending count s).0 ≡ ok entries
      → (entries ≡ take count (stream.entries_pending s))
        × (stream.entries_pending (stream.xreadgroup pending count s).1 ≡ stream.entries_pending s)
  pub read_new :
      (count : ℕ) (s : S) (entries : List StreamEntry)
      → (stream.xreadgroup new count s).0 ≡ ok entries
      → stream.entries_pending (stream.xreadgroup new count s).1
        ≡ stream.entries_pending s ++ entries
  pub xackdel_acked :
      (ids : List String) (s : S)
      → (stream.xackdel ids s).0 ≡ acked
      → stream.entries_pending (stream.xackdel ids s).1 ≡ without ids (stream.entries_pending s)
  pub xackdel_unknown :
      (ids : List String) (s : S)
      → (stream.xackdel ids s).0 ≡ unknown_command
      → stream.entries_pending (stream.xackdel ids s).1 ≡ stream.entries_pending s
  pub xack_xdel_done :
      (ids : List String) (s : S)
      → (stream.xack_xdel ids s).0 ≡ true
      → stream.entries_pending (stream.xack_xdel ids s).1 ≡ without ids (stream.entries_pending s)

without-nil :
    (ids : List String) (entries : List StreamEntry)
    → ((e : StreamEntry) → In e entries → member same_id e.0 ids ≡ true)
    → without ids entries ≡ []
without-nil ids [] h = refl
without-nil ids (e ∷ entries) h =
    ground (arith, h e here, without-nil ids entries (λ f m. h f (there m)))

member-ids :
    (e : StreamEntry) (entries : List StreamEntry)
    → In e entries
    → member same_id e.0 (map (λ f. f.0) entries) ≡ true
unfolding member
member-ids e [] m = elim m [ ]
member-ids e (_ ∷ entries) here = ground arith
member-ids e (f ∷ entries) (there m) = ground (arith, member-ids e entries m)

pub without_self : (entries : List StreamEntry) → without (map (λ e. e.0) entries) entries ≡ []
without_self entries = without-nil (map (λ e. e.0) entries) entries (λ e m. member-ids e entries m)

-- what `_handle` leaves, and its effect on the stream when it returns
abbrev pub Leaves :
    {S : Type 0} {fl : Floats}
    → Stream S
    → List String
    → Consumer
    → S
    → Bool × Consumer × S × List (Effect fl)
    → Type 0
Leaves stream ids c s (done, c', s', log) =
    (c'.phase ≡ c.phase)
    × (c'.backoff_ms ≡ c.backoff_ms)
    × (done ≡ true → stream.entries_pending s' ≡ without ids (stream.entries_pending s))

module _ {S : Type 0} (stream : Stream S) (laws : Documented stream) where
  -- an acknowledgement that returns has taken effect
  acknowledge_done :
      (ids : List String) (c : Consumer) (s : S)
      → let (done, c', s') = acknowledge stream ids c s in
        (c'.phase ≡ c.phase)
        × (c'.backoff_ms ≡ c.backoff_ms)
        × (done ≡ true → stream.entries_pending s' ≡ without ids (stream.entries_pending s))
  unfolding acknowledge
  acknowledge_done ids c s = ground (
    arith,
    laws.xackdel_acked ids s,
    laws.xackdel_unknown ids s,
    laws.xack_xdel_done ids s,
    laws.xack_xdel_done ids (stream.xackdel ids s).1,
  )

  module _ {fl : Floats} (o : Orjson fl) (answers : Answers fl) where
    finish-Leaves :
        (ids : List String) (log : List (Effect fl)) (c : Consumer) (s : S)
        → Leaves stream ids c s (finish stream o ids log c s)
    unfolding finish
    finish-Leaves ids log c s = acknowledge_done ids c s

    write_letters-Leaves :
        (letters : List DeadLetter) (ids : List String) (log : List (Effect fl)) (c : Consumer)
        (s : S)
        → Leaves stream ids c s (write_letters stream o answers letters ids log c s)
    unfolding write_letters
    write_letters-Leaves [] ids log c s = finish-Leaves ids log c s
    write_letters-Leaves (letter ∷ letters) ids log c s =
        elim (Bool-cases (answers.letters_written (letter ∷ letters))) [
          | inl written ↦
              rw written (finish-Leaves ids (log ++ dead_letters (letter ∷ letters) ∷ []) c s)
          | inr lost ↦ rw lost (refl, refl, λ h. cc)
        ]

    pub handle-Leaves :
        (entries : List StreamEntry) (c : Consumer) (s : S)
        → Leaves stream (map (λ e. e.0) entries) c s (handle stream o answers entries c s)
    unfolding handle
    handle-Leaves entries c s =
        let (records, sources, dead) = decode o entries in
        let ids = map (λ e. e.0) entries in
        elim (Option-cases (batch_result answers records)) [
          | inl raised ↦ rw (raised, handle) (refl, refl, λ h. cc)
          | inr (result, applied) ↦
              elim (Option-cases (rejected_letters o sources result.rejected)) [
                | inl lost ↦ rw (applied, lost, handle) (refl, refl, λ h. cc)
                | inr (letters, found) ↦
                    rw (applied, found, handle)
                      (write_letters-Leaves (dead ++ letters) ids (publishes result ∷ []) c s)
              ]
        ]

-- ===== src/Processor/Publisher/Chunks.antt =====
-- Chunks lose nothing.
use geotrack.Prelude.{
  ◌+◌, ◌≤◌, ◌<◌, ◌≡◌, refl, sym, ap, ◌∙◌, List, [], ◌∷◌, ◌++◌, Option, none, some, length,
  length-append, leb, All, Bool-cases, inl, inr, arith,
}
use mathlib.Core.List.{append-nil, append_assoc}
use geotrack.Prelude.Text.{Bytes}
use geotrack.Float.{Floats}
use geotrack.Processor.Tables.{Alert}
use geotrack.Processor.Batch.{BatchResult}
use geotrack.Messaging.Json.{Orjson}
use geotrack.Processor.Publisher.{
  Message, publish_chunk, appended, flushes_from, position_messages, flushes, flush_all, publish,
}

abbrev pub IsChunk : List Message → Type 0
IsChunk chunk = (1 ≤ length chunk) × (length chunk ≤ publish_chunk)

module _ {fl : Floats} (frame_for : Alert fl → Option Bytes) where
  -- the frames of the alerts that have one, each to its user
  abbrev pub alert_messages : List (Alert fl) → List Message
  alert_messages [] = []
  alert_messages (alert ∷ alerts) = appended [] alert (frame_for alert) ++ alert_messages alerts

  appended-append :
      (waiting : List Message) (alert : Alert fl) (frame : Option Bytes)
      → appended waiting alert frame ≡ waiting ++ appended [] alert frame
  appended-append waiting alert none = sym (append-nil waiting)
  appended-append waiting alert (some frame) = refl

  flush_all-flushes_from :
      (broken : List Message → Option (List Message))
      → ((chunk : List Message) → broken chunk ≡ none)
      → (waiting : List Message) (alerts : List (Alert fl))
      → flush_all broken (flushes_from frame_for waiting alerts) ≡ waiting ++ alert_messages alerts
  unfolding flush_all flushes_from
  flush_all-flushes_from broken runs [] [] = refl
  flush_all-flushes_from broken runs (m ∷ waiting) [] = rw (runs (m ∷ waiting)) refl
  flush_all-flushes_from broken runs waiting (alert ∷ alerts) =
      let more = appended waiting alert (frame_for alert) in
      let joined : more ++ alert_messages alerts ≡ waiting ++ alert_messages (alert ∷ alerts) =
        ap (λ m. m ++ alert_messages alerts) (appended-append waiting alert (frame_for alert))
        ∙ append_assoc waiting (appended [] alert (frame_for alert)) (alert_messages alerts) in
      elim (Bool-cases (leb publish_chunk (length more))) [
        | inl full ↦ rw (full, runs more, flush_all-flushes_from broken runs [] alerts) joined
        | inr room ↦ rw (room, flush_all-flushes_from broken runs more alerts) joined
      ]

  length-appended_le :
      (waiting : List Message) (alert : Alert fl) (frame : Option Bytes)
      → length (appended waiting alert frame) ≤ length waiting + 1
  length-appended_le waiting alert none = omega arith
  length-appended_le waiting alert (some frame) = rw length-append (omega arith)

  flushes_from-IsChunk :
      (waiting : List Message) (alerts : List (Alert fl))
      → length waiting < publish_chunk
      → All IsChunk (flushes_from frame_for waiting alerts)
  unfolding flushes_from
  flushes_from-IsChunk [] [] h = tt
  flushes_from-IsChunk (m ∷ waiting) [] h = ((omega arith, omega (arith, h)), tt)
  flushes_from-IsChunk waiting (alert ∷ alerts) h =
      let more = appended waiting alert (frame_for alert) in
      let longer = length-appended_le waiting alert (frame_for alert) in
      elim (Bool-cases (leb publish_chunk (length more))) [
        | inl full ↦ rw full (
          (ground (arith, full), omega (arith, longer, h)),
          flushes_from-IsChunk [] alerts (omega arith),
        )
        | inr room ↦ rw room (flushes_from-IsChunk more alerts (ground (arith, room)))
      ]

  short :
      (o : Orjson fl) (result : BatchResult fl)
      → length (position_messages o result.accepted) < publish_chunk
  short o result = ground arith

  -- A batch's result is sent in pipelines of at least one message and at most 256. If they all run,
  -- what is sent is the positions that were accepted, if there are any, and then, in the order of
  -- the alerts, the frame of each alert that has one, to the channel of its user.
  pub publish-messages :
      (broken : List Message → Option (List Message)) (o : Orjson fl) (result : BatchResult fl)
      → ((chunk : List Message) → broken chunk ≡ none)
      → All IsChunk (flushes frame_for o result)
        × (publish frame_for broken o result
            ≡ position_messages o result.accepted ++ alert_messages result.alerts)
  unfolding publish flushes
  publish-messages broken o result runs = (
    flushes_from-IsChunk (position_messages o result.accepted) result.alerts (short o result),
    flush_all-flushes_from broken runs (position_messages o result.accepted) result.alerts,
  )

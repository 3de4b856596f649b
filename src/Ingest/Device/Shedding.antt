-- ===== src/Ingest/Device/Shedding.antt =====
-- What a closed gate does to the frames of a session.
use geotrack.Prelude.{
  ℕ, suc, ◌+◌, ◌*◌, max, ◌≤◌, ◌≡◌, refl, ◌∙◌, inl, inr, true, List, [], ◌∷◌, ◌++◌, some, length,
  length-append, ltb, All, Bool-cases, arith,
}
use geotrack.Prelude.Text.{Bytes}
use geotrack.Float.{Floats}
use geotrack.Ingest.Backlog.{retry_after_ms}
use geotrack.Ingest.Device.{
  DeviceSession, Turn, Settings, throttle_frame, payload_of, send, notify_throttled, turn_of, loop,
}

-- The gate is shut, a frame came by a time, and the device can be told; its retry window is `w`.
abbrev pub Sheds : ℕ → ℕ → Turn → Type 0
Sheds w last turn =
    (turn.gate.throttled ≡ true)
    × (turn.writable ≡ true)
    × (raw : Bytes) × (payload_of turn.message ≡ some raw)
    × (retry_after_ms turn.gate * 1_000_000 ≡ w)
    × turn.monotonic ≤ last

-- what the session must not send too often
abbrev pub Rate : ℕ → ℕ → ℕ → DeviceSession → DeviceSession → Type 0
Rate w last n s s' =
    (s'.edge ≡ s.edge)
    × (s'.shed_frames ≡ n + s.shed_frames)
    × (length s'.sent * w + s.quiet_until ≤ length s.sent * w + max s.quiet_until (last + w))

later : (n w quiet now : ℕ) → quiet ≤ now → (n + 1) * w + quiet ≤ n * w + (now + w)
later n w quiet now h = ground (arith, h)

chained :
    (a b c w q q' last : ℕ)
    → b * w + q ≤ a * w + q'
    → c * w + q' ≤ b * w + max q' (last + w)
    → q' ≤ max q (last + w)
    → c * w + q ≤ a * w + max q (last + w)
chained a b c w q q' last h k m = ground (arith, h, k, m)

module _ {fl : Floats} (settings : Settings fl) where
  turn_of-sheds :
      (turn : Turn) (w last : ℕ) (s : DeviceSession) (raw : Bytes)
      → turn.gate.throttled ≡ true
      → turn.writable ≡ true
      → retry_after_ms turn.gate * 1_000_000 ≡ w
      → turn.monotonic ≤ last
      → (s' : DeviceSession) × (turn_of settings turn (some raw) s ≡ (some true, s'))
        × (s'.edge ≡ s.edge)
        × (s'.shed_frames ≡ suc s.shed_frames)
        × (length s'.sent * w + s.quiet_until ≤ length s.sent * w + s'.quiet_until)
        × (s'.quiet_until ≤ max s.quiet_until (last + w))
  unfolding turn_of notify_throttled send
  turn_of-sheds turn w last s raw shut writable window by =
      elim (Bool-cases (ltb turn.monotonic s.quiet_until)) [
        | inl quiet ↦
            rw (shut, quiet)
              (
                record s { shed_frames = suc s.shed_frames },
                refl,
                refl,
                refl,
                omega arith,
                ground arith,
              )
        | inr due ↦
            rw (shut, due, writable)
              (
                record s {
                  shed_frames = suc s.shed_frames;
                  quiet_until = turn.monotonic + retry_after_ms turn.gate * 1_000_000;
                  sent = s.sent ++ (throttle_frame (retry_after_ms turn.gate) ∷ []);
                },
                refl,
                refl,
                refl,
                rw (window, length-append s.sent (throttle_frame (retry_after_ms turn.gate) ∷ []))
                    (later (length s.sent) w s.quiet_until turn.monotonic (ground (arith, due))),
                rw window (ground (arith, by)),
              )
      ]

  -- While the gate is shut and the device can be told, no frame ends the session, nothing reaches
  -- the streams or the counters of reports, each frame is counted as shed, and the requests to hold
  -- off are so rare that their number times the retry window is at most the time of the last frame
  -- and one window, less the time up to which the device had already been asked to wait.
  pub loop-Rate :
      (turns : List Turn) (w last : ℕ) (s : DeviceSession)
      → All (Sheds w last) turns
      → (s' : DeviceSession) × (loop settings turns s ≡ (some true, s'))
        × Rate w last (length turns) s s'
  unfolding loop
  loop-Rate [] w last s h = (s, refl, (refl, omega arith, ground arith))
  loop-Rate (turn ∷ turns) w last s (sheds, h) =
      let (shut, writable, raw, some_raw, window, by) = sheds in
      let (s1, done, same, one, sent, quiet) =
        turn_of-sheds turn w last s raw shut writable window by in
      let (s2, rest, (same', more, sent')) = loop-Rate turns w last s1 h in
      rw (some_raw, done, rest)
        (
          s2,
          refl,
          (
            same' ∙ same,
            omega (arith, one, more),
            chained (length s.sent) (length s1.sent) (length s2.sent) w s.quiet_until s1.quiet_until
                last sent sent' quiet,
          ),
        )

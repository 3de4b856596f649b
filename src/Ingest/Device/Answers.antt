-- ===== src/Ingest/Device/Answers.antt =====
-- What a device hears of each frame.
use geotrack.Prelude.{
  ℕ, ◌<◌, ◌≤◌, ◌≡◌, refl, ◌⊎◌, inl, inr, Bool, true, false, List, [], ◌∷◌, ◌++◌, Option, none, some,
  length, Bool-cases, arith,
}
use geotrack.Prelude.Int.{ℤ}
use geotrack.Prelude.Result.{Result, ok, raise}
use geotrack.Float.{Floats}
use geotrack.Ingest.Backlog.{BacklogMonitor}
use geotrack.Ingest.Schemas.{LocationReport}
use geotrack.Ingest.Service.{
  Transport, ws, RejectReason, backpressure, Outcome, executed, broken, finish, written, Edge,
  Service, count_rejected, submit, commands_of, SubmitError, not_positive,
}
use geotrack.Ingest.Service.Streams.{commands_of-map}
use geotrack.Ingest.Device.{
  DeviceSession, Turn, Frame, throttle_frame, error_frame, ack_frame, Step,
}

abbrev pub IsRefusal : Frame → Type 0
IsRefusal (throttle_frame ms) = Unit
IsRefusal (error_frame detail seq) = Unit
IsRefusal (ack_frame seq n) = ⊥

-- One refusal went out, and nothing was counted as accepted.
abbrev pub Refused : DeviceSession → Step Bool → Type 0
Refused s (none, s') = ⊥
Refused s (some on, s') =
    (frame : Frame) × IsRefusal frame
    × (s'.sent ≡ s.sent ++ (frame ∷ []))
    × (s'.edge.accepted ≡ s.edge.accepted)

abbrev pub ack_frames : Option ℤ → ℕ → List Frame
ack_frames none n = []
ack_frames (some seq) n = ack_frame seq n ∷ []

-- So many reports were counted as accepted, and acknowledged if the frame has a sequence number.
abbrev pub Accepted : ℕ → Option ℤ → DeviceSession → Step Bool → Type 0
Accepted n seq s (none, s') = ⊥
Accepted n seq s (some on, s') =
    (on ≡ true)
    × (s'.sent ≡ s.sent ++ ack_frames seq n)
    × (s'.edge.accepted ≡ s.edge.accepted ++ ((ws, n) ∷ []))

-- Nothing went out, and the reports were counted as accepted or not at all: the session is over.
abbrev pub Lost : ℕ → DeviceSession → Step Bool → Type 0
Lost n s (some on, s') = ⊥
Lost n s (none, s') =
    (s'.sent ≡ s.sent)
    × ((s'.edge.accepted ≡ s.edge.accepted)
        ⊎ (s'.edge.accepted ≡ s.edge.accepted ++ ((ws, n) ∷ [])))

-- The frame has a sequence number that orjson does not take.
abbrev pub Unwritten : Turn → Option ℤ → Type 0
Unwritten turn none = ⊥
Unwritten turn (some seq) = turn.dumps_int seq ≡ false

pub count_rejected-accepted :
    (n : ℕ) (t : Transport) (r : RejectReason) (e : Edge)
    → (count_rejected n t r e).accepted ≡ e.accepted
unfolding count_rejected
count_rejected-accepted n t r e = ground arith

-- What the service's answer means for the counter of accepted reports.
abbrev pub Submitted : ℕ → Transport → Edge → Result SubmitError ℕ × Edge → Type 0
Submitted n t e (ok m, e') = (m ≡ n) × (e'.accepted ≡ e.accepted ++ ((t, n) ∷ []))
Submitted n t e (raise not_positive, e') = ⊥
Submitted n t e (raise _, e') = e'.accepted ≡ e.accepted

module _ {fl : Floats} where
  written-Submitted :
      (service : Service fl) (now : ℤ) (outcome : Outcome) (rs : List (LocationReport fl)) (n : ℕ)
      (t : Transport) (e : Edge)
      → 0 < service.shards
      → Submitted n t e (written outcome (commands_of service now rs) n t e)
  unfolding written finish
  written-Submitted service now executed rs n t e h =
      rw (commands_of-map service now rs h) (refl, refl)
  written-Submitted service now (broken some_of) rs n t e h =
      rw (commands_of-map service now rs h) refl

  pub submit-Submitted :
      (service : Service fl) (gate : BacklogMonitor) (now : ℤ) (outcome : Outcome)
      (rs : List (LocationReport fl)) (t : Transport) (e : Edge)
      → 0 < service.shards
      → 1 ≤ length rs
      → Submitted (length rs) t e (submit service gate now outcome rs t e)
  unfolding submit
  submit-Submitted service gate now outcome [] t e h k = absurd (omega (arith, k))
  submit-Submitted service gate now outcome (r ∷ rs) t e h k = elim (Bool-cases gate.throttled) [
    | inl shut ↦ rw shut (count_rejected-accepted (length (r ∷ rs)) t backpressure e)
    | inr flows ↦ rw flows (written-Submitted service now outcome (r ∷ rs) (length (r ∷ rs)) t e h)
  ]

abbrev Answered : Turn → ℕ → Option ℤ → DeviceSession → Step Bool → Type 0
Answered turn n seq s step =
    Refused s step ⊎ (Accepted n seq s step ⊎ (Unwritten turn seq × Lost n s step))

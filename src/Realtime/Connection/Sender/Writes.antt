-- ===== src/Realtime/Connection/Sender/Writes.antt =====
-- What a write leaves.
use geotrack.Prelude.{ℕ, ◌≡◌, refl, Bool, true, false, List, [], ◌∷◌, none, arith}
use geotrack.Prelude.Int.{ℤ}
use geotrack.Prelude.Text.{Bytes, join}
use geotrack.Float.{Floats}
use geotrack.Realtime.Hub.{DeviceId}
use geotrack.Realtime.Protocol.{Wire, codes, positions_frame, close_slow_consumer}
use geotrack.Realtime.Connection.{Connection, request_close}
use geotrack.Realtime.Connection.Sender.{
  frame_type, Outcome, delivered, timed_out, disconnected, Handed, send_bytes, attempt, write,
}

positions_frame-frame_type :
    {fl : Floats} (w : Wire fl) (parsed : Bytes → Bytes) (full : Bool) (t : ℤ) (chunks : List Bytes)
    (removed : List DeviceId)
    → frame_type parsed (positions_frame w full t chunks removed) ≡ codes "positions"
unfolding frame_type positions_frame join
positions_frame-frame_type w parsed full t chunks removed = refl

write-attempt :
    {fl : Floats} (parsed : Bytes → Bytes) (is_utf_8 : Bytes → Bool) (outcome : Outcome)
    (frame : Bytes) (c : Connection fl)
    → c.writable ≡ true
    → frame_type parsed frame ≡ codes "positions"
    → write parsed is_utf_8 outcome frame c ≡ attempt outcome (send_bytes frame) c
unfolding write
write-attempt parsed is_utf_8 outcome frame c live kind = ground (arith, live, kind)

-- what a closed connection has given up
abbrev pub Ended : {fl : Floats} → ℕ → Connection fl → Type 0
Ended code c =
    (c.writable ≡ false)
    × (c.closing ≡ true)
    × (c.close_code ≡ code)
    × (c.control ≡ [])
    × (c.pending_delta ≡ none)
    × (c.needs_snapshot ≡ false)

-- the three ends of a write
abbrev pub After :
    {fl : Floats} → Outcome → Connection fl → Bool × Connection fl × List Handed → Type 0
After delivered c (on, c', handed) = (on ≡ true) × (c' ≡ c)
After timed_out c (on, c', handed) = (on ≡ false) × Ended close_slow_consumer c'
After disconnected c (on, c', handed) = (on ≡ false) × Ended 1000 c'

-- A position frame is handed once to the socket of a connection that is writable and not closing,
-- as bytes whatever it says and with no JSON parsed. If it gets through, the connection is as it
-- was; if it takes too long or the peer is gone, the sender stops, the connection is closing with
-- the code of that end and unwritable, and it keeps no frame.
pub write-positions_frame :
    {fl : Floats} (w : Wire fl) (parsed : Bytes → Bytes) (is_utf_8 : Bytes → Bool) (full : Bool)
    (t : ℤ) (chunks : List Bytes) (removed : List DeviceId) (outcome : Outcome) (c : Connection fl)
    → c.writable ≡ true
    → c.closing ≡ false
    → let frame = positions_frame w full t chunks removed in
      let r = write parsed is_utf_8 outcome frame c in
      (r.2 ≡ send_bytes frame ∷ []) × After outcome c r
write-positions_frame w parsed is_utf_8 full t chunks removed outcome c live open_now =
    rw
      (write-attempt parsed is_utf_8 outcome (positions_frame w full t chunks removed) c live
        (positions_frame-frame_type w parsed full t chunks removed))
      (ends outcome)
  where
    ends :
        (outcome : Outcome)
        → let r = attempt outcome (send_bytes (positions_frame w full t chunks removed)) c in
          (r.2 ≡ send_bytes (positions_frame w full t chunks removed) ∷ []) × After outcome c r
    ends delivered = unfold attempt in (refl, (refl, refl))
    ends timed_out =
        unfold attempt request_close in
        rw open_now (refl, (refl, (refl, refl, refl, refl, refl, refl)))
    ends disconnected =
        unfold attempt request_close in
        rw open_now (refl, (refl, (refl, refl, refl, refl, refl, refl)))

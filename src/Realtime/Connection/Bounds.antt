-- ===== src/Realtime/Connection/Bounds.antt =====
-- What a slow client can cost: one position frame and a bounded queue, and nothing once it is asked
-- to close.
use Prim.Native.String.{String}
use geotrack.Prelude.{
  ℕ, ◌≤◌, ◌≡◌, true, List, [], ◌∷◌, Option, none, some, arith, length, length-append,
}
use geotrack.Prelude.Int.{ℤ}
use geotrack.Prelude.Result.{ok, raise}
use geotrack.Prelude.Text.{Bytes}
use geotrack.Float.{Floats}
use geotrack.Geo.{BBox}
use geotrack.Realtime.Hub.{Hub, TickDelta}
use geotrack.Realtime.Protocol.{Wire}
use geotrack.Realtime.Connection.{
  Connection, set_viewport, request_close, send_control, offer_positions, next_frame,
}
use geotrack.Realtime.Connection.Sender.{
  Outcome, delivered, timed_out, disconnected, Handed, attempt, aclose,
}

pub record IsBounded {fl : Floats} (c : Connection fl) : Type 0 where
  pub queue : length c.control ≤ c.control_max
  -- a delta is never kept beside the promise of a snapshot
  pub one_frame : c.needs_snapshot ≡ true → c.pending_delta ≡ none
  -- the frames that `aclose` leaves behind stand in a connection that writes no more
  pub drained : c.closing ≡ true → c.writable ≡ true → (c.control ≡ []) × (c.pending_delta ≡ none)

-- The calls that change a connection, those that raise leaving it as it was.
pub data Call (fl : Floats) : Type 0 where
  sends : Bytes → Call fl
  closes : ℕ → String → Call fl
  views : BBox fl → Call fl
  offers : TickDelta → Call fl
  takes : ℤ → Hub fl → Call fl
  tries : Outcome → Handed → Call fl
  acloses : Call fl

module _ {fl : Floats} where
  pub send_control-IsBounded :
      (frame : Bytes) (c : Connection fl) → IsBounded c → IsBounded (send_control frame c)
  unfolding send_control
  send_control-IsBounded frame c b = ground (arith, length-append c.control (frame ∷ []))

  pub request_close-IsBounded :
      (code : ℕ) (reason : String) (c : Connection fl)
      → IsBounded c
      → IsBounded (request_close code reason c)
  unfolding request_close
  request_close-IsBounded code reason c b = ground arith

  pub offer_positions-IsBounded :
      (w : Wire fl) (delta : TickDelta) (c : Connection fl)
      → IsBounded c
      → IsBounded (offer_positions w delta c)
  unfolding offer_positions
  offer_positions-IsBounded w delta c b = ground arith

  pub next_frame-IsBounded :
      (w : Wire fl) (now_ms : ℤ) (h : Hub fl) (c c' : Connection fl) (f : Option Bytes)
      (h' : Hub fl)
      → IsBounded c
      → next_frame w now_ms h c ≡ some (f, c', h')
      → IsBounded c'
  unfolding next_frame
  next_frame-IsBounded w now_ms h c c' f h' b e = ground arith

  pub set_viewport-IsBounded :
      (bbox : BBox fl) (c c' : Connection fl)
      → IsBounded c
      → set_viewport bbox c ≡ ok c'
      → IsBounded c'
  unfolding set_viewport
  set_viewport-IsBounded bbox c c' b e = ground arith

  attempt-IsBounded :
      (outcome : Outcome) (handed : Handed) (c : Connection fl)
      → IsBounded c
      → IsBounded (attempt outcome handed c).1
  unfolding attempt request_close
  attempt-IsBounded delivered handed c b = b
  attempt-IsBounded timed_out handed c b = ground arith
  attempt-IsBounded disconnected handed c b = ground arith

  aclose-IsBounded : (c : Connection fl) → IsBounded c → IsBounded (aclose c).1
  unfolding aclose
  aclose-IsBounded c b = ground arith

  pub call : Wire fl → Call fl → Connection fl → Connection fl
  call w (sends frame) c = send_control frame c
  call w (closes code reason) c = request_close code reason c
  call w (views bbox) c = elim (set_viewport bbox c) [ raise _ ↦ c | ok c' ↦ c' ]
  call w (offers delta) c = offer_positions w delta c
  call w (takes now_ms h) c = elim (next_frame w now_ms h c) [ none ↦ c | some (f, c', h') ↦ c' ]
  call w (tries outcome handed) c = (attempt outcome handed c).1
  call w acloses c = (aclose c).1

  pub calls : Wire fl → List (Call fl) → Connection fl → Connection fl
  calls w [] c = c
  calls w (k ∷ ks) c = calls w ks (call w k c)

  call-IsBounded :
      (w : Wire fl) (k : Call fl) (c : Connection fl) → IsBounded c → IsBounded (call w k c)
  unfolding call
  call-IsBounded w (sends frame) c b = send_control-IsBounded frame c b
  call-IsBounded w (closes code reason) c b = request_close-IsBounded code reason c b
  call-IsBounded w (views bbox) c b = unfold set_viewport in ground arith
  call-IsBounded w (offers delta) c b = offer_positions-IsBounded w delta c b
  call-IsBounded w (takes now_ms h) c b = unfold next_frame in ground arith
  call-IsBounded w (tries outcome handed) c b = attempt-IsBounded outcome handed c b
  call-IsBounded w acloses c b = aclose-IsBounded c b

-- However a connection is used after it is opened, its control queue never exceeds its limit, a
-- delta is never kept beside a promised snapshot, and while it is closing and its socket is still
-- written to it keeps no frame at all.
pub calls-IsBounded :
    {fl : Floats} (w : Wire fl) (ks : List (Call fl)) (c : Connection fl)
    → IsBounded c
    → IsBounded (calls w ks c)
unfolding calls
calls-IsBounded w [] c b = b
calls-IsBounded w (k ∷ ks) c b = calls-IsBounded w ks (call w k c) (call-IsBounded w k c b)

-- ===== src/Generator/Socket/Run.antt =====
-- What the counters of a websocket worker say of its reports, over its life.
use geotrack.Prelude.{
  ℕ, ◌+◌, ◌<◌, ◌≤◌, ◌≡◌, refl, Bool, List, [], ◌∷◌, length, arith, sym, subst, ◌∙◌, Bool-cases, inl,
  inr, leb,
}
use geotrack.Prelude.Int.{pos}
use geotrack.Float.{Floats}
use geotrack.Messaging.Json.{Orjson}
use geotrack.Generator.{Random, Math}
use geotrack.Generator.Fleet.{
  Devices, start, pop_due, step_all, reschedule_all, Round, sends, holds, round,
}
use geotrack.Generator.Fleet.Deadlines.{IsArmed, start-IsArmed}
use geotrack.Generator.Fleet.Once.{made, Keeps-IsArmed, round-Keeps}
use geotrack.Generator.Stats.{new_stats}
use geotrack.Generator.Socket.{
  pending_acks_max, Worker, new_worker, send, send_round, opened, left, session_failed,
  handle_frame, handle, Event, ticks, opens, leaves, fails, says, rearms, happen, happen_all,
}
use geotrack.Generator.Socket.Pending.{outstanding}
use geotrack.Generator.Socket.Delivered.{send-Sends}
use geotrack.Generator.Socket.Answers.{Answers, handle_frame-Answers}

-- Every report that was produced was sent or dropped; none is refused twice.
pub record IsSettled {fl : Floats} {rnd : Random fl} (w : Worker fl rnd) : Type 0 where
  pub balance : w.stats.produced ≡ w.stats.sent + w.stats.dropped
  pub refusals : w.stats.rejected + outstanding fl rnd w ≤ w.stats.produced
  pub bounded : length w.pending ≤ pending_acks_max
  pub armed : IsArmed fl rnd w.devices

module _ (fl : Floats) (rnd : Random fl) where
  Answers-IsSettled : (w w' : Worker fl rnd) → Answers fl rnd w w' → IsSettled w → IsSettled w'
  Answers-IsSettled w w' a h = record {
    balance = a.produced ∙ h.balance ∙ omega (arith, a.sent, a.dropped);
    refusals = omega (arith, a.refusals, h.refusals, a.produced);
    bounded = omega (arith, a.bounded, h.bounded);
    armed = rw a.devices h.armed;
  }

  module _ (mt : Math fl) (round7 : fl.F → fl.F) (o : Orjson fl) (max_batch : ℕ) where
    round-IsArmed :
        (r : Round fl) (d : Devices fl rnd)
        → IsArmed fl rnd d
        → IsArmed fl rnd (round fl rnd mt round7 r d).1
    round-IsArmed r d h =
        Keeps-IsArmed fl rnd mt round7 (length d.devices) (made fl rnd r d)
          (round fl rnd mt round7 r d) (round-Keeps fl rnd mt round7 r d h)

    send_round-IsSettled :
        (now : fl.F) (moment : ℕ) (ends : ℕ → fl.F × Bool) (w : Worker fl rnd)
        → 0 < max_batch
        → IsSettled w
        → IsSettled (send_round fl rnd mt round7 max_batch now moment ends w).1
    unfolding send_round round
    send_round-IsSettled now moment ends w h k =
        let d = w.devices in
        let due = (pop_due fl now d.schedule).0 in
        let d0 = record d { schedule = (pop_due fl now d.schedule).1 } in
        let pause = fl.sub w.pause_until now in
        let (reports, moved) = step_all fl rnd mt round7 moment due d0 in
        let d1 = reschedule_all fl rnd now due moved in
        let stats = record w.stats { produced = w.stats.produced + length reports } in
        let w1 = record w { devices = d1; stats = stats } in
        let s = send-Sends fl rnd max_batch ends reports w1 h k.bounded in
        let w2 = (send fl rnd max_batch ends reports w1).1 in
        let sending : Round fl = sends now moment in
        let holding : Round fl = holds now (fl.add now pause) in
        elim (Bool-cases (leb (length due) 0)) [
          | inl none_due ↦ rw none_due k
          | inr some_due ↦ rw some_due (elim (Bool-cases (fl.lt (fl.literal (pos 0)) pause)) [
            | inl throttled ↦ rw throttled record {
              balance = k.balance;
              refusals = k.refusals;
              bounded = k.bounded;
              armed = round-IsArmed holding d k.armed;
            }
            | inr free ↦ rw free record {
              balance = omega (arith, s.produced, s.balance, k.balance);
              refusals = omega (arith, s.produced, s.rejected, s.outstanding_le, k.refusals);
              bounded = s.bounded;
              armed = subst (IsArmed fl rnd) (sym s.devices) (round-IsArmed sending d k.armed);
            }
          ])
        ]

    happen-IsSettled :
        (e : Event fl) (w : Worker fl rnd)
        → 0 < max_batch
        → IsSettled w
        → IsSettled (happen fl rnd mt round7 o max_batch e w)
    unfolding happen opened left session_failed handle
    happen-IsSettled (ticks now moment ends) w h k = send_round-IsSettled now moment ends w h k
    happen-IsSettled (says now message) w h k =
        let w' = handle_frame fl rnd o now (o.loads message) w in
        Answers-IsSettled w w' (handle_frame-Answers fl rnd o now (o.loads message) w) k
    happen-IsSettled opens w h k = Answers-IsSettled w (opened fl rnd w) (ground arith) k
    happen-IsSettled leaves w h k = Answers-IsSettled w (left fl rnd w) (ground arith) k
    happen-IsSettled (fails was_open delay) w h k =
        Answers-IsSettled w (session_failed fl rnd was_open delay w).1 (ground arith) k
    happen-IsSettled (rearms now spread) w h k = record {
      balance = k.balance;
      refusals = k.refusals;
      bounded = k.bounded;
      armed = start-IsArmed fl rnd now spread w.devices;
    }

    happen_all-IsSettled :
        (es : List (Event fl)) (w : Worker fl rnd)
        → 0 < max_batch
        → IsSettled w
        → IsSettled (happen_all fl rnd mt round7 o max_batch es w)
    unfolding happen_all
    happen_all-IsSettled [] w h k = k
    happen_all-IsSettled (e ∷ es) w h k =
        happen_all-IsSettled es (happen fl rnd mt round7 o max_batch e w) h
          (happen-IsSettled e w h k)

    -- For a batch limit of one at least, a worker whose fleet was started has, whatever comes
    -- next in its life: sent or dropped each report that it produced, and once; at most 1,024
    -- frames that it waits for; no more reports refused, with those in these frames, than
    -- produced; and exactly one deadline for each of its devices.
    pub new_worker-IsSettled :
        (devices : Devices fl rnd) (now spread : fl.F) (rng : rnd.R) (es : List (Event fl))
        → 0 < max_batch
        → let w = new_worker fl rnd (start fl rnd now spread devices) (new_stats fl rnd rng) in
          IsSettled (happen_all fl rnd mt round7 o max_batch es w)
    unfolding new_worker new_stats
    new_worker-IsSettled devices now spread rng es h =
        let w = new_worker fl rnd (start fl rnd now spread devices) (new_stats fl rnd rng) in
        happen_all-IsSettled es w h record {
          balance = refl;
          refusals = omega arith;
          bounded = omega arith;
          armed = start-IsArmed fl rnd now spread devices;
        }

-- ===== src/Generator/Socket/Answers.antt =====
-- What a worker makes of the messages of its server.
use text.Mathlib.Text.{◌==◌ as str_eq}
use geotrack.Prelude.{
  ℕ, ◌+◌, ◌≤◌, ◌≡◌, refl, length, Option, none, some, arith, ap, Bool-cases, Option-cases, inl, inr,
  ℕ_discrete,
}
use geotrack.Prelude.Dict.{get}
use geotrack.Prelude.Int.{ℤ, pos, negsuc}
use geotrack.Float.{Floats}
use geotrack.Messaging.Json.{Json, null, bool, int, num, str, arr, obj, Fields, Orjson, get_field}
use geotrack.Generator.{Random}
use geotrack.Generator.Stats.{Stats}
use geotrack.Generator.Socket.{
  Worker, int_field, as_seq, type_field, forget, timed, ack_pending, on_ack, on_throttle, refused,
  on_error, handle_frame,
}
use geotrack.Generator.Socket.Pending.{outstanding, outstanding-pop, length-pop-le}

module _ (fl : Floats) (rnd : Random fl) where
  -- An answer took a frame off those that wait, or none, and at most its reports are refused.
  pub record Answers (w w' : Worker fl rnd) : Type 0 where
    pub sent : w'.stats.sent ≡ w.stats.sent
    pub dropped : w'.stats.dropped ≡ w.stats.dropped
    pub produced : w'.stats.produced ≡ w.stats.produced
    pub devices : w'.devices ≡ w.devices
    pub bounded : length w'.pending ≤ length w.pending
    pub refusals :
        w'.stats.rejected + outstanding fl rnd w' ≤ w.stats.rejected + outstanding fl rnd w

  -- `n` reports are refused, with the frame that carried them.
  record Refuses (n : ℕ) (w w' : Worker fl rnd) : Type 0 where
    stats : w'.stats ≡ w.stats
    devices : w'.devices ≡ w.devices
    bounded : length w'.pending ≤ length w.pending
    outstanding_le : n + outstanding fl rnd w' ≤ outstanding fl rnd w

  forget-Refuses :
      (seq : ℕ) (w : Worker fl rnd) → Refuses (forget fl rnd seq w).0 w (forget fl rnd seq w).1
  unfolding forget
  forget-Refuses seq w = record {
    stats = refl;
    devices = refl;
    bounded = length-pop-le seq w.pending;
    outstanding_le = outstanding-pop fl rnd seq w;
  }

  module _ (o : Orjson fl) where
    refused-Refuses :
        (said : Option ℤ) (w : Worker fl rnd)
        → Refuses (refused fl rnd o said w).0 w (refused fl rnd o said w).1
    unfolding refused
    refused-Refuses none w = forget-Refuses w.seq w
    refused-Refuses (some (pos seq)) w = forget-Refuses seq w
    refused-Refuses (some (negsuc n)) w = ground arith

    on_error-Answers :
        (fields : Fields fl) (w : Worker fl rnd) → Answers w (on_error fl rnd o fields w)
    unfolding on_error
    on_error-Answers fields w =
        let r = refused-Refuses (int_field fl rnd o "seq" fields) w in
        record {
          sent = ap (λ (x : Stats fl rnd). x.sent) r.stats;
          dropped = ap (λ (x : Stats fl rnd). x.dropped) r.stats;
          produced = ap (λ (x : Stats fl rnd). x.produced) r.stats;
          devices = r.devices;
          bounded = r.bounded;
          refusals = omega (arith, r.outstanding_le, ap (λ (x : Stats fl rnd). x.rejected) r.stats);
        }

    ack_pending-Answers :
        (now : fl.F) (seq : Option ℕ) (w : Worker fl rnd)
        → Answers w (ack_pending fl rnd o now seq w)
    unfolding ack_pending timed
    ack_pending-Answers now none w = ground arith
    ack_pending-Answers now (some seq) w =
        let shorter = length-pop-le seq w.pending in
        let less = outstanding-pop fl rnd seq w in
        elim (Option-cases (get ℕ_discrete seq w.pending)) [
          | inl miss ↦ ground (arith, miss, shorter, less)
          | inr (e, hit) ↦ ground (arith, hit, shorter, less)
        ]

    on_ack-Answers :
        (now : fl.F) (fields : Fields fl) (w : Worker fl rnd)
        → Answers w (on_ack fl rnd o now fields w)
    unfolding on_ack
    on_ack-Answers now fields w =
        let a = ack_pending-Answers now (as_seq fl rnd o (int_field fl rnd o "seq" fields)) w in
        record {
          sent = a.sent;
          dropped = a.dropped;
          produced = a.produced;
          devices = a.devices;
          bounded = a.bounded;
          refusals = a.refusals;
        }

    on_throttle-Answers :
        (now : fl.F) (fields : Fields fl) (w : Worker fl rnd)
        → Answers w (on_throttle fl rnd o now fields w)
    unfolding on_throttle
    on_throttle-Answers now fields w = ground arith

    same-Answers : (w : Worker fl rnd) → Answers w w
    same-Answers w = ground arith

    pub handle_frame-Answers :
        (now : fl.F) (frame : Option (Json fl)) (w : Worker fl rnd)
        → Answers w (handle_frame fl rnd o now frame w)
    unfolding handle_frame
    handle_frame-Answers now none w = ground arith
    handle_frame-Answers now (some (obj fields)) w =
        let type = type_field fl rnd o (get_field "type" fields) in
        elim (Bool-cases (str_eq type "ack")) [
          | inl ack ↦ rw ack (on_ack-Answers now fields w)
          | inr a ↦ rw a (elim (Bool-cases (str_eq type "throttle")) [
            | inl throttle ↦ rw throttle (on_throttle-Answers now fields w)
            | inr b ↦ rw b (elim (Bool-cases (str_eq type "error")) [
              | inl error ↦ rw error (on_error-Answers fields w)
              | inr c ↦ rw c (same-Answers w)
            ])
          ])
        ]
    handle_frame-Answers now (some null) w = same-Answers w
    handle_frame-Answers now (some (bool b)) w = same-Answers w
    handle_frame-Answers now (some (int n)) w = same-Answers w
    handle_frame-Answers now (some (num x)) w = same-Answers w
    handle_frame-Answers now (some (str t)) w = same-Answers w
    handle_frame-Answers now (some (arr xs)) w = same-Answers w

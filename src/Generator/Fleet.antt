-- ===== src/Generator/Fleet.antt =====
-- generator.py: the deadlines of a fleet and the devices that they are for, `Schedule` and
-- `Devices`. The heap of `heapq` is a list in its order; the parallel lists of `Devices` are one
-- list of records.
pub mod Deadlines
pub mod Once
use Prim.Native.String.{String}
use geotrack.Prelude.{
  ℕ, zero, suc, ◌+◌, Bool, true, false, ◌&&◌, List, [], ◌∷◌, ◌++◌, length, get_elem?, Option, none,
  some, if◌then◌else◌, ltb,
}
use geotrack.Prelude.Int.{ℤ, pos}
use geotrack.Float.{Floats, max_of}
use geotrack.Generator.{Random, Math}
use geotrack.Generator.Motion.{Area, DeviceState, advance, fraction}

-- `(due, index)`
abbrev pub Schedule : Floats → Type 0
Schedule fl = List (fl.F × ℕ)

module _ (fl : Floats) where
  open fl use {F, le, lt, add, sub, mul, div, literal}

  abbrev pub idle_sleep_s : F
  idle_sleep_s = fraction fl 25 100

  -- Python's order of pairs
  abbrev pub before : F × ℕ → F × ℕ → Bool
  before (a, i) (b, j) = if le a b && le b a then ltb i j else lt a b

  -- `heapq.heappush`
  unfoldable pub push_entry : F × ℕ → Schedule fl → Schedule fl
  push_entry e [] = e ∷ []
  push_entry e (x ∷ xs) = let rest = push_entry e xs in if before e x then e ∷ x ∷ xs else x ∷ rest

  unfoldable pub push : ℕ → F → Schedule fl → Schedule fl
  unfolding push_entry
  push index due schedule = push_entry (due, index) schedule

  -- The indices that are due, and the entries that stay.
  unfoldable pub pop_due : F → Schedule fl → List ℕ × Schedule fl
  pop_due now [] = ([], [])
  pop_due now ((due, index) ∷ rest) =
      let later = pop_due now rest in
      if le due now then (index ∷ later.0, later.1) else ([], (due, index) ∷ rest)

  unfoldable pub next_delay : F → Schedule fl → F
  next_delay now [] = idle_sleep_s
  next_delay now ((due, index) ∷ rest) = max_of fl (sub due now) (literal (pos 0))

  unfoldable pub jitter : F
  jitter = fraction fl 20 100

-- one place of the lists of `Devices`
pub record Device (fl : Floats) (rnd : Random fl) : Type 0 where
  pub state : DeviceState fl
  pub rng : rnd.R
  pub clock : rnd.R
  pub dt : fl.F

pub record Devices (fl : Floats) (rnd : Random fl) : Type 0 where
  pub devices : List (Device fl rnd)
  pub area : Area fl
  pub interval : fl.F
  pub driving : Bool
  pub rng : rnd.R
  pub schedule : Schedule fl

pub record Report (fl : Floats) : Type 0 where
  pub device_id : String
  pub latitude : fl.F
  pub longitude : fl.F
  pub timestamp : ℕ

module _ {ℓ} {A : Type ℓ} where
  -- `xs[i] = f(xs[i])`
  unfoldable pub update_at : ℕ → (A → A) → List A → List A
  update_at i f [] = []
  update_at zero f (x ∷ xs) = f x ∷ xs
  update_at (suc i) f (x ∷ xs) = x ∷ update_at i f xs

module _ (fl : Floats) (rnd : Random fl) where
  open fl use {F, le, lt, add, sub, mul, div, literal}
  open rnd use {R, random, uniform, seeded}

  unfoldable pub jittered_interval : F → R → F × R
  unfolding jitter
  jittered_interval interval rng =
      let (factor, rng') =
        uniform (sub (literal (pos 1)) (jitter fl)) (add (literal (pos 1)) (jitter fl)) rng in
      (mul interval factor, rng')

  -- `device_rng` and `report_rng`; the names that the streams are seeded with are given
  unfoldable pub new_device :
      (String → String) → (String → String) → F → DeviceState fl → Device fl rnd
  new_device device_seed report_seed interval state = record {
    state = state;
    rng = seeded (device_seed state.device_id);
    clock = seeded (report_seed state.device_id);
    dt = interval;
  }

  unfoldable pub init : List (Device fl rnd) → Area fl → F → R → Devices fl rnd
  init devices area interval rng = record {
    devices = devices;
    area = area;
    interval = interval;
    driving = false;
    rng = rng;
    schedule = [];
  }

  -- The loop of `start`, from an index on; `count` is the number of devices.
  unfoldable pub arm : F → F → ℕ → ℕ → ℕ → Devices fl rnd → Devices fl rnd
  unfolding push
  arm now spread count index zero d = d
  arm now spread count index (suc n) d =
      let offset = div (mul spread (literal (pos index))) (literal (pos count)) in
      let (draw, rng') = random d.rng in
      arm now spread count (suc index) n (record d {
        rng = rng';
        schedule = push fl index (add (add now offset) (mul draw d.interval)) d.schedule;
      })

  unfoldable pub start : F → F → Devices fl rnd → Devices fl rnd
  unfolding arm
  start now spread d =
      let count = length d.devices in arm now spread count 0 count (record d { schedule = [] })

  -- `driving`: what the calling task drives, and `none` where it raises
  unfoldable pub claim : F → F → Devices fl rnd → Option (Devices fl rnd)
  unfolding start
  claim now spread d =
      if d.driving then none else some (start now spread (record d { driving = true }))

  -- the way out of `driving`
  unfoldable pub give_up : Devices fl rnd → Devices fl rnd
  give_up d = record d { driving = false }

  unfoldable pub reschedule : F → ℕ → Devices fl rnd → Devices fl rnd
  unfolding jittered_interval update_at push
  reschedule now index d = elim (get_elem? d.devices index) [
    | none ↦ d
    | some device ↦
        let (delay, clock') = jittered_interval d.interval device.clock in
        record d {
          devices =
              update_at index (λ (e : Device fl rnd). record e { dt = delay; clock = clock' })
                d.devices;
          schedule = push fl index (add now delay) d.schedule;
        }
  ]

  unfoldable pub defer : F → ℕ → Devices fl rnd → Devices fl rnd
  unfolding jittered_interval push
  defer until index d =
      let (delay, rng') = jittered_interval d.interval d.rng in
      record d { rng = rng'; schedule = push fl index (add until delay) d.schedule }

  module _ (mt : Math fl) (round7 : F → F) where
    unfoldable pub report_payload : DeviceState fl → ℕ → Report fl
    report_payload state moment = record {
      device_id = state.device_id;
      latitude = round7 state.lat;
      longitude = round7 state.lon;
      timestamp = moment;
    }

    -- `step`; the list of the report, which is empty for an index of no device
    unfoldable pub step : ℕ → ℕ → Devices fl rnd → List (Report fl) × Devices fl rnd
    unfolding report_payload update_at advance
    step index moment d = elim (get_elem? d.devices index) [
      | none ↦ ([], d)
      | some device ↦
          let (state', rng') = advance fl mt rnd device.state device.dt d.area device.rng in
          (
            report_payload state' moment ∷ [],
            record d {
              devices =
                  update_at index (λ (e : Device fl rnd). record e { state = state'; rng = rng' })
                    d.devices;
            },
          )
    ]

    unfoldable pub step_all : ℕ → List ℕ → Devices fl rnd → List (Report fl) × Devices fl rnd
    step_all moment [] d = ([], d)
    step_all moment (index ∷ due) d =
        let (report, d1) = step index moment d in
        let (reports, d2) = step_all moment due d1 in (report ++ reports, d2)

    -- The loop of `_produce` over the devices that are due.
    unfoldable pub produce_all : F → ℕ → List ℕ → Devices fl rnd → List (Report fl) × Devices fl rnd
    produce_all now moment [] d = ([], d)
    produce_all now moment (index ∷ due) d =
        let (report, d1) = step index moment d in
        let (reports, d2) = produce_all now moment due (reschedule now index d1) in
        (report ++ reports, d2)

  unfoldable pub reschedule_all : F → List ℕ → Devices fl rnd → Devices fl rnd
  reschedule_all now [] d = d
  reschedule_all now (index ∷ due) d = reschedule_all now due (reschedule now index d)

  unfoldable pub defer_all : F → List ℕ → Devices fl rnd → Devices fl rnd
  defer_all until [] d = d
  defer_all until (index ∷ due) d = defer_all until due (defer until index d)

-- What a task does with the devices that are due: a websocket worker sends or, while throttled,
-- holds them back; the producer of the HTTP transport batches them; either may be started again.
pub data Round (fl : Floats) : Type 0 where
  sends : fl.F → ℕ → Round fl
  holds : fl.F → fl.F → Round fl
  batches : fl.F → ℕ → Round fl
  rearms : fl.F → fl.F → Round fl

module _ (fl : Floats) (rnd : Random fl) (mt : Math fl) (round7 : fl.F → fl.F) where
  unfoldable pub round : Round fl → Devices fl rnd → List (Report fl) × Devices fl rnd
  round (sends now moment) d =
      let (due, rest) = pop_due fl now d.schedule in
      let (reports, d1) = step_all fl rnd mt round7 moment due (record d { schedule = rest }) in
      (reports, reschedule_all fl rnd now due d1)
  round (holds now until) d =
      let (due, rest) = pop_due fl now d.schedule in
      ([], defer_all fl rnd until due (record d { schedule = rest }))
  round (batches now moment) d =
      let (due, rest) = pop_due fl now d.schedule in
      produce_all fl rnd mt round7 now moment due (record d { schedule = rest })
  round (rearms now spread) d = ([], start fl rnd now spread d)

  unfoldable pub rounds : List (Round fl) → Devices fl rnd → Devices fl rnd
  rounds [] d = d
  rounds (r ∷ rs) d = rounds rs (round r d).1

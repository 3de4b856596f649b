-- ===== src/Tests/Generator.antt =====
-- The load generator on concrete inputs: floats are whole numbers, a random stream is a number that
-- every draw gives back, and no trigonometry moves a device.
use Prim.Native.String.{String}
use geotrack.Prelude.{ℕ, ◌≡◌, refl, true, false, List, [], ◌∷◌, length, Option, none, some, arith}
use geotrack.Prelude.Int.{ℤ, pos, ◌*ℤ◌, ◌+ℤ◌, ◌-ℤ◌}
use geotrack.Prelude.Result.{Returns}
use geotrack.Generator.{Random, Math}
use geotrack.Generator.Motion.{Area, DeviceState, stationary, wrap_deg}
use geotrack.Generator.Fleet.{
  Device, Devices, new_device, init, start, pop_due, Round, sends, holds, batches, rearms, round,
  rounds, produce_all, step, reschedule, jitter,
}
use geotrack.Generator.Fleet.Once.{Keeps, made, rounds-Keeps}
use geotrack.Generator.Batcher.{Batcher, add_report, drain}
use geotrack.Generator.Batcher.Drained.{Drained, drain-Drained}
use geotrack.Generator.Stats.{Reads, not_a_date, new_stats}
use geotrack.Generator.Http
use geotrack.Generator.Http.Accounts.{waiting}
use geotrack.Generator.Http.Run.{lost}
use geotrack.Generator.Socket
use geotrack.Generator.Socket.{chunked}
use geotrack.Generator.Socket.Run.{IsSettled, new_worker-IsSettled}
use geotrack.Generator.Settings.{Texts, Args, parse_config}
use geotrack.Generator.Settings.Valid.{IsValid, parse_config-IsValid}
use geotrack.Tests.Realtime.{integers}
use geotrack.Tests.Postfix.{postfix}

abbrev dice : Random integers
dice = record {
  R = ℕ;
  seeded = λ name. 0;
  random = λ r. (pos r, r);
  uniform = λ lo hi r. (lo, r);
  gauss = λ mean sigma r. (mean, r);
  randrange = λ n r. (r, r);
}

abbrev flat : Math integers
flat = record {
  sqrt = λ x. x;
  sin = λ x. pos 0;
  cos = λ x. pos 1;
  radians = λ x. x;
  degrees = λ x. x;
  hypot = λ x y. x;
  atan2 = λ x y. x;
}

abbrev same : ℤ → ℤ
same x = x

abbrev kyiv : Area integers
kyiv = record { lat = pos 50; lon = pos 30; radius_m = pos 25_000 }

abbrev parked_at : String → DeviceState integers
parked_at name = record {
  device_id = name;
  lat = pos 50;
  lon = pos 30;
  heading_deg = pos 0;
  speed_mps = pos 0;
  profile = stationary integers;
}

abbrev placed : String → Device integers dice
placed name = new_device integers dice (λ id. id) (λ id. id) (pos 3) (parked_at name)

abbrev two : Devices integers dice
two = init integers dice (placed "dev-00000" ∷ placed "dev-00001" ∷ []) kyiv (pos 3) 0

-- Both devices are sent for at once, held back while the server is busy, and batched after a restart.
abbrev day : List (Round integers)
day = sends (pos 0) 1 ∷ holds (pos 10) (pos 12) ∷ rearms (pos 20) (pos 5) ∷ []

rounds-Keeps_example :
    let d = rounds integers dice flat same day (start integers dice (pos 0) (pos 0) two) in
    Keeps integers dice flat same
      (length two.devices)
      (made integers dice (batches (pos 30) 2) d)
      (round integers dice flat same (batches (pos 30) 2) d)
rounds-Keeps_example =
    rounds-Keeps integers dice flat same (pos 0) (pos 0) two day (batches (pos 30) 2)

both_due : made integers dice (sends (pos 5) 1) (start integers dice (pos 0) (pos 0) two) ≡ 2
unfolding start init pop_due ◌*ℤ◌
both_due = refl

abbrev five : Batcher integers ℕ
five = record { size = 2; window = pos 1; reports = 1 ∷ 2 ∷ 3 ∷ 4 ∷ 5 ∷ []; oldest_at = pos 0 }

drain-Drained_example :
    (r : List (List ℕ) × Batcher integers ℕ) × (drain integers 6 (pos 0) five ≡ some r)
    × Drained integers (pos 0) five r
drain-Drained_example = drain-Drained integers 6 (pos 0) five (omega arith) (omega arith)

drained_twice :
    drain integers 6 (pos 0) five
    ≡ some ((1 ∷ 2 ∷ []) ∷ (3 ∷ 4 ∷ []) ∷ [], record five { reports = 5 ∷ [] })
unfolding drain
drained_twice = refl

chunked_unevenly : chunked {A = ℕ} (1 ∷ 2 ∷ 3 ∷ []) 2 ≡ (1 ∷ 2 ∷ []) ∷ (3 ∷ []) ∷ []
unfolding chunked
chunked_unevenly = refl

-- A header of any length is a number that no float holds.
abbrev huge : Reads integers
huge = record {
  strip = λ s. s;
  int = λ s. some (pos 1);
  to_float = λ n. none;
  seconds_to = λ s. not_a_date;
}

-- A batch of two is refused for good, the next is answered with such a header.
abbrev answers : List (Http.Event integers)
answers =
    Http.produces (pos 5) 1
    ∷ Http.takes 0
    ∷ Http.answered 0 (Http.response (pos 7) 400 none [])
    ∷ Http.produces (pos 10) 2
    ∷ Http.takes 0
    ∷ Http.answered 0 (Http.response (pos 7) 503 (some "1") [])
    ∷ Http.produces (pos 15) 3
    ∷ Http.wakes 0
    ∷ []

-- Six reports were made: two were rejected, two were lost, and two wait.
abbrev counted : Option (Http.Runner integers dice) → List ℕ
counted none = []
counted (some r) =
    r.stats.produced ∷ r.stats.sent ∷ r.stats.rejected ∷ r.stats.dropped ∷ waiting r ∷ []

answered_hugely :
    let armed = start integers dice (pos 0) (pos 0) two in
    let r = Http.new_runner integers dice armed 1 2 (pos 0) (new_stats integers dice 0) in
    (counted (Http.happen_all integers dice flat same postfix huge answers r)
      ≡ 6 ∷ 2 ∷ 2 ∷ 0 ∷ 2 ∷ [])
    × (lost integers dice flat same postfix huge answers r ≡ 2)
unfolding start init pop_due ◌*ℤ◌ ◌+ℤ◌ lost Http.happen_all Http.produce produce_all step reschedule
    Http.new_runner new_stats Http.answer Http.take_next Http.offer Http.wake add_report new_device
    jitter ◌-ℤ◌ stationary wrap_deg
answered_hugely = (refl, refl)

-- The second frame of a tick fails, and the server refuses the first.
abbrev life : List (Socket.Event integers)
life =
    Socket.opens
    ∷ Socket.ticks (pos 5) 1 (λ seq. (pos 5, true))
    ∷ Socket.says (pos 6) []
    ∷ Socket.ticks (pos 10) 2 (λ seq. (pos 10, false))
    ∷ Socket.leaves
    ∷ Socket.fails true (pos 1)
    ∷ Socket.rearms (pos 11) (pos 0)
    ∷ []

new_worker-IsSettled_example :
    let w =
      Socket.new_worker integers dice
        (start integers dice (pos 0) (pos 0) two)
        (new_stats integers dice 0) in
    IsSettled (Socket.happen_all integers dice flat same postfix 1 life w)
new_worker-IsSettled_example =
    new_worker-IsSettled integers dice flat same postfix 1 two (pos 0) (pos 0) 0 life (omega arith)

abbrev plain : Texts integers
plain = record {
  int = λ s. some (pos 7);
  float = λ s. some (pos 7);
  strip = λ s. s;
  lower = λ s. s;
  rstrip_slash = λ s. s;
  is_http = λ s. true;
  split_comma = λ s. s ∷ s ∷ [];
}

abbrev no_flags : Args integers
no_flags = record {
  url = none;
  transport = none;
  devices = some (pos 5);
  interval = none;
  connections = none;
  max_connections = none;
  batch_size = none;
  batch_window_ms = none;
  max_batch = some (pos 20);
  center = none;
  radius_km = none;
  duration = none;
  ramp_up = none;
  seed = none;
  ingest_key = some "key";
  device_prefix = none;
  stats_interval = none;
  json_summary = none;
  verbose = none;
}

parse_config-IsValid_example : Returns IsValid (parse_config integers plain no_flags (λ name. none))
parse_config-IsValid_example = parse_config-IsValid integers plain no_flags (λ name. none)

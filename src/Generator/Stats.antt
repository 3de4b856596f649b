-- ===== src/Generator/Stats.antt =====
-- generator.py: the counters of a run, the sample of latencies, and the pause that a server may
-- ask for. `int`, `float` and `parsedate_to_datetime` are parameters.
use Prim.Native.String.{String}
use text.Mathlib.Text.{◌==◌ as str_eq}
use geotrack.Prelude.{ℕ, ◌+◌, List, [], ◌∷◌, ◌++◌, length, Option, none, some, if◌then◌else◌, ltb}
use geotrack.Prelude.Int.{ℤ, pos}
use geotrack.Float.{Floats, max_of, min_of}
use geotrack.Generator.{Random}
use geotrack.Generator.Motion.{fraction}
use geotrack.Generator.Fleet.{update_at}

abbrev pub latency_samples : ℕ
latency_samples = 4_096

pub record Reservoir (fl : Floats) (rnd : Random fl) : Type 0 where
  pub capacity : ℕ
  pub count : ℕ
  pub values : List fl.F
  pub rng : rnd.R

pub record Stats (fl : Floats) (rnd : Random fl) : Type 0 where
  pub produced : ℕ
  pub sent : ℕ
  pub accepted : ℤ
  pub rejected : ℕ
  pub dropped : ℕ
  pub failures : ℕ
  pub reconnects : ℕ
  pub throttles : ℕ
  pub in_flight : ℕ
  pub queued : ℕ
  pub latency : Reservoir fl rnd

module _ (fl : Floats) (rnd : Random fl) where
  open fl use {F}

  unfoldable pub sample : F → Reservoir fl rnd → Reservoir fl rnd
  unfolding update_at
  sample value r =
      if ltb (length r.values) r.capacity
      then record r { count = r.count + 1; values = r.values ++ (value ∷ []) }
      else (let (index, rng') = rnd.randrange (r.count + 1) r.rng in
          record r {
            count = r.count + 1;
            rng = rng';
            values =
                if ltb index r.capacity then update_at index (λ _. value) r.values else r.values;
          })

  unfoldable pub new_stats : rnd.R → Stats fl rnd
  new_stats rng = record {
    produced = 0;
    sent = 0;
    accepted = pos 0;
    rejected = 0;
    dropped = 0;
    failures = 0;
    reconnects = 0;
    throttles = 0;
    in_flight = 0;
    queued = 0;
    latency = record { capacity = latency_samples; count = 0; values = []; rng = rng };
  }

-- The pauses between attempts.
module _ (fl : Floats) where
  open fl use {F, sub, mul, literal}

  abbrev pub reconnect_base_s : F
  reconnect_base_s = fraction fl 5 10

  abbrev pub reconnect_max_s : F
  reconnect_max_s = literal (pos 30)

  abbrev pub retry_after_max_s : F
  retry_after_max_s = literal (pos 30)

  -- `min(delay * 2.0, RECONNECT_MAX_S)`
  unfoldable pub backed_off : F → F
  backed_off delay = min_of fl (mul delay (literal (pos 2))) reconnect_max_s

  unfoldable pub retry_pause : Option F → F → F
  retry_pause none fallback = min_of fl fallback retry_after_max_s
  retry_pause (some asked) fallback = min_of fl asked retry_after_max_s

-- What `parsedate_to_datetime(raw)` and the seconds to the moment it returns come to: a `TypeError`
-- or a `ValueError`, the `OverflowError` of a year or an offset too large, or the seconds.
pub data HttpDate (fl : Floats) : Type 0 where
  not_a_date : HttpDate fl
  date_overflow : HttpDate fl
  in_seconds : fl.F → HttpDate fl

-- `value.strip()`, `int(raw)` with `none` for its `ValueError`, `float(n)` with `none` for its
-- `OverflowError`, and the seconds to an HTTP date
pub record Reads (fl : Floats) : Type 0 where
  pub strip : String → String
  pub int : String → Option ℤ
  pub to_float : ℤ → Option fl.F
  pub seconds_to : String → HttpDate fl

-- What `parse_retry_after` returns, and that it raises.
pub data RetryAfter (fl : Floats) : Type 0 where
  unsaid : RetryAfter fl
  seconds : fl.F → RetryAfter fl
  overflow : RetryAfter fl

module _ (fl : Floats) (reads : Reads fl) where
  -- no `except` is for the `OverflowError`
  unfoldable pub retry_date : HttpDate fl → RetryAfter fl
  retry_date not_a_date = unsaid
  retry_date date_overflow = overflow
  retry_date (in_seconds left) = seconds (max_of fl left (fl.literal (pos 0)))

  unfoldable pub retry_float : Option fl.F → RetryAfter fl
  retry_float none = overflow
  retry_float (some n) = seconds (max_of fl n (fl.literal (pos 0)))

  unfoldable pub retry_number : String → Option ℤ → RetryAfter fl
  unfolding retry_date retry_float
  retry_number raw none = retry_date (reads.seconds_to raw)
  retry_number raw (some n) = retry_float (reads.to_float n)

  -- an absent header, or an empty one
  unfoldable pub parse_retry_after : Option String → RetryAfter fl
  unfolding retry_number
  parse_retry_after none = unsaid
  parse_retry_after (some raw) =
      let number = retry_number (reads.strip raw) (reads.int (reads.strip raw)) in
      if str_eq raw "" then unsaid else number

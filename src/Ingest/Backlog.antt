-- ===== src/Ingest/Backlog.antt =====
-- src/geotrack/ingest/backlog.py: `BacklogMonitor`, the gate with two watermarks.
pub mod Hysteresis
use geotrack.Prelude.{
  ℕ, ◌+◌, max, Bool, true, false, not, ◌&&◌, List, [], ◌∷◌, Option, none, some, if◌then◌else◌, leb,
}
use geotrack.Prelude.Result.{Result, ok, raise}

-- `ValueError`
pub data WatermarkError : Type 0 where
  low_not_below_high : WatermarkError

pub record BacklogMonitor : Type 0 where
  pub high : ℕ
  pub low : ℕ
  -- `int(self._poll_s * 2_000)`
  pub twice_poll_ms : ℕ
  pub throttled : Bool
  pub backlog : ℕ

unfoldable pub init : ℕ → ℕ → ℕ → Result WatermarkError BacklogMonitor
init high low twice_poll_ms =
    if leb high low
    then raise low_not_below_high
    else ok (record {
      high = high;
      low = low;
      twice_poll_ms = twice_poll_ms;
      throttled = false;
      backlog = 0;
    })

unfoldable pub retry_after_ms : BacklogMonitor → ℕ
retry_after_ms m = max 1_000 m.twice_poll_ms

unfoldable pub sum : List ℕ → ℕ
sum [] = 0
sum (n ∷ ns) = n + sum ns

-- the watermarks, for the total of a sample
unfoldable pub apply_watermarks : ℕ → BacklogMonitor → BacklogMonitor
apply_watermarks total m =
    let seen = record m { backlog = total } in
    if leb m.high total && not m.throttled
    then record seen { throttled = true }
    else if leb total m.low && m.throttled
    then record seen { throttled = false }
    else seen

-- `refresh` in the loop of `_run`: the lengths of the streams, or `none` where Redis fails
unfoldable pub refresh : Option (List ℕ) → BacklogMonitor → BacklogMonitor
unfolding apply_watermarks sum
refresh none m = m
refresh (some lengths) m = apply_watermarks (sum lengths) m

unfoldable pub run : List (Option (List ℕ)) → BacklogMonitor → BacklogMonitor
unfolding refresh
run [] m = m
run (sample ∷ samples) m = run samples (refresh sample m)

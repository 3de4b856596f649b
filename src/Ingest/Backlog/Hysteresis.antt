-- ===== src/Ingest/Backlog/Hysteresis.antt =====
-- The gate is what the last telling sample made it.
use geotrack.Prelude.{
  ℕ, ◌<◌, ◌≡◌, refl, Bool, true, false, List, [], ◌∷◌, Option, none, some, if◌then◌else◌, leb,
  arith,
}
use geotrack.Ingest.Backlog.{BacklogMonitor, sum, refresh, run}

-- what a sample says of the gate: to shut it, to open it, or nothing
abbrev pub verdict : ℕ → ℕ → Option (List ℕ) → Option Bool
verdict high low none = none
verdict high low (some lengths) =
    if leb high (sum lengths) then some true else if leb (sum lengths) low then some false else none

abbrev pub or_else : Option Bool → Bool → Bool
or_else none b = b
or_else (some v) b = v

-- the latest verdict among the samples, or what stood before
abbrev pub last_verdict : ℕ → ℕ → List (Option (List ℕ)) → Bool → Bool
last_verdict high low [] b = b
last_verdict high low (sample ∷ samples) b =
    last_verdict high low samples (or_else (verdict high low sample) b)

refresh-verdict :
    (sample : Option (List ℕ)) (m : BacklogMonitor)
    → m.low < m.high
    → let m' = refresh sample m in
      (m'.high ≡ m.high)
      × (m'.low ≡ m.low)
      × (m'.throttled ≡ or_else (verdict m.high m.low sample) m.throttled)
unfolding refresh
refresh-verdict none m h = (refl, refl, refl)
refresh-verdict (some lengths) m h = ground arith

-- After any samples, those that failed included, the gate is shut if the last total that was at
-- the high watermark or above came after the last one at the low watermark or below, and open if
-- it came before; with no such total it is as it was.
pub run-last_verdict :
    (samples : List (Option (List ℕ))) (m : BacklogMonitor)
    → m.low < m.high
    → (run samples m).throttled ≡ last_verdict m.high m.low samples m.throttled
unfolding run
run-last_verdict [] m h = refl
run-last_verdict (sample ∷ samples) m h =
    let (high, low, now) = refresh-verdict sample m h in
    let rest = run-last_verdict samples (refresh sample m) in ground (arith, rest)

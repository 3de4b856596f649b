-- ===== src/Realtime/Gateway/Budget.antt =====
-- The two budgets for bad messages count alike.
use geotrack.Prelude.{
  ℕ, ◌+◌, ◌-◌, ◌≡◌, refl, true, false, List, [], ◌∷◌, ◌++◌, length, leb, ltb, arith, Bool-cases,
  inl, inr,
}
use geotrack.Float.{Floats}
use geotrack.Ingest.Device.{popleft_old, record_bad}
use geotrack.Realtime.Gateway.{
  popleft_before, malformed_budget, malformed_window, Receiver, Replies, Violation, reject,
}

popleft_before-popleft_old :
    (span at : ℕ) (violations : List ℕ)
    → popleft_before span at violations ++ (at ∷ []) ≡ popleft_old span at (violations ++ (at ∷ []))
popleft_before-popleft_old span at [] = ground arith
popleft_before-popleft_old span at (v ∷ violations) =
    let rest = popleft_before-popleft_old span at violations in
    elim (Bool-cases (ltb (v + span) at)) [
      | inl old ↦ let older : ltb span (at - v) ≡ true = ground (arith, old) in rw (old, older) rest
      | inr kept ↦
          let newer : ltb span (at - v) ≡ false = ground (arith, kept) in rw (kept, newer) refl
    ]

-- The gateway's budget for bad messages and the one for a device's bad frames, though written
-- differently, decide alike: whatever violations stand and whenever the next one comes, the gateway
-- goes on with the client exactly if the device's budget would, and keeps the same times.
pub reject-record_bad :
    {fl : Floats} (replies : Replies) (violation : Violation) (at : ℕ) (r : Receiver fl)
    → let (goes_on, r') = reject replies at violation r in
      let (within, events) = record_bad malformed_budget malformed_window at r.violations in
      (goes_on ≡ within) × (r'.violations ≡ events)
unfolding reject record_bad
reject-record_bad replies violation at r =
    let same = popleft_before-popleft_old malformed_window at r.violations in
    let kept = popleft_old malformed_window at (r.violations ++ (at ∷ [])) in
    elim (Bool-cases (ltb malformed_budget (length kept))) [
      | inl over ↦
          let spent : leb (length kept) malformed_budget ≡ false = ground (arith, over) in
          rw (same, over, spent) (refl, refl)
      | inr under ↦
          let left_over : leb (length kept) malformed_budget ≡ true = ground (arith, under) in
          rw (same, under, left_over) (refl, refl)
    ]

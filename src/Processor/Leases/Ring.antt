-- ===== src/Processor/Leases/Ring.antt =====
-- The ring of shards stands in a replica's order without repetition, and so do its candidates.
use native.Mathlib.Nat.{mod-eq_of_lt, mod-eq-sub-mod, mod-add-mod, mod-lt}
use geotrack.Prelude.{
  ℕ, zero, suc, ◌+◌, ◌-◌, ◌%◌, ◌≤◌, ◌<◌, ◌≡◌, ◌≢◌, refl, Bool, true, false, not, List, [], ◌∷◌,
  select, ltb, arith, times, Bool-cases, inl, inr, ℕ_discrete, ◌∙◌,
}
use geotrack.Prelude.Index.{member}
use geotrack.Processor.Leases.{order_from, rotation_of, fair_share_plan}

-- Two places of the ring less than a turn apart are different.
mod-apart : (m x d : ℕ) → 0 < d → d < m → (x + d) % m ≢ x % m
mod-apart m x d h k e =
    let r = x % m in
    let small : r < m = mod-lt x (omega arith) in
    let same : (r + d) % m ≡ r = mod-add-mod x m d ∙ e in
    elim (Bool-cases (ltb (r + d) m)) [
      | inl below ↦
          let lt : r + d < m = ground (arith, below) in
          let p : (r + d) % m ≡ r + d = mod-eq_of_lt lt in omega arith
      | inr above ↦
          let le : m ≤ r + d = ground (arith, above) in
          let p : (r + d) % m ≡ (r + d - m) % m = mod-eq-sub-mod le in
          let lt : r + d - m < m = omega arith in
          let q : (r + d - m) % m ≡ r + d - m = mod-eq_of_lt lt in omega arith
    ]

order_from-absent :
    (r m a step n : ℕ)
    → a < step
    → step + n ≤ a + m
    → times ((r + a) % m) (order_from r m step n) ≡ 0
unfolding order_from
order_from-absent r m a step zero h k = refl
order_from-absent r m a step (suc n) h k =
    let d = step - a in
    let there : r + a + d ≡ r + step = omega arith in
    let differ : (r + step) % m ≢ (r + a) % m =
      rw (← there) (mod-apart m (r + a) d (omega arith) (omega arith)) in
    ground (arith, differ, order_from-absent r m a (suc step) n)

order_from-times-le : (r m step n i : ℕ) → n ≤ m → times i (order_from r m step n) ≤ 1
unfolding order_from
order_from-times-le r m step zero i h = omega arith
order_from-times-le r m step (suc n) i h = elim (ℕ_discrete i ((r + step) % m)) [
  | yes p ↦ ground (arith, p, order_from-absent r m step (suc step) n (omega arith) (omega arith))
  | no p ↦ ground (arith, p, order_from-times-le r m (suc step) n i)
]

times-select-le : (keep : ℕ → Bool) (i : ℕ) (xs : List ℕ) → times i (select keep xs) ≤ times i xs
times-select-le keep i [] = omega arith
times-select-le keep i (x ∷ xs) = ground (arith, times-select-le keep i xs)

times-select-dropped :
    (keep : ℕ → Bool) (i : ℕ) (xs : List ℕ) → keep i ≡ false → times i (select keep xs) ≡ 0
times-select-dropped keep i [] h = refl
times-select-dropped keep i (x ∷ xs) h = elim (ℕ_discrete i x) [
  | yes p ↦
      let dropped : keep x ≡ false = rw (← p) h in
      ground (arith, p, dropped, times-select-dropped keep i xs)
  | no p ↦ ground (arith, p, times-select-dropped keep i xs)
]

-- The candidates of a plan stand there once and are not held.
pub fair_share_plan-candidates :
    (shards : ℕ) (owned : List ℕ) (live offset i : ℕ)
    → let plan = fair_share_plan shards owned live offset in
      (times i plan.candidates ≤ 1)
      × (member ℕ_discrete i owned ≡ true → times i plan.candidates ≡ 0)
unfolding fair_share_plan
fair_share_plan-candidates shards owned live offset i =
    let spare = λ (c : ℕ). not (member ℕ_discrete c owned) in
    let ring = order_from (rotation_of offset shards) shards 0 shards in
    let once = order_from-times-le (rotation_of offset shards) shards 0 shards i (omega arith) in
    (
      ground (arith, once, times-select-le spare i ring),
      λ h.
          let held : spare i ≡ false = rw h refl in
          ground (arith, times-select-dropped spare i ring held),
    )

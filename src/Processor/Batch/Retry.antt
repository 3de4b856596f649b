-- ===== src/Processor/Batch/Retry.antt =====
-- The attempts of a batch.
use Prim.Native.String.{String}
use geotrack.Prelude.{
  ℕ, suc, zero, ◌+◌, ◌-◌, ◌≤◌, ◌<◌, ◌≡◌, Bool, true, false, not, Option, none, some, dec_lt, arith,
  inl, inr, Bool-cases,
}
use geotrack.Prelude.Result.{ok, raise}
use geotrack.Processor.Batch.{Answer, should_retry, attempt_from}

module _ {A : Type 0} (answers : ℕ → Answer A) (max_attempts : ℕ) where
  -- whether the answer of an attempt ends the loop
  abbrev pub is_final : ℕ → Bool
  is_final n = elim (answers n) [
    | ok _ ↦ true
    | raise sqlstate ↦ not (should_retry sqlstate (suc n) max_attempts)
  ]

  abbrev sqlstate_at : ℕ → Option String
  sqlstate_at n = elim (answers n) [ ok _ ↦ none | raise sqlstate ↦ sqlstate ]

  should_retry-lt :
      (s : Option String) (n : ℕ) → should_retry s n max_attempts ≡ true → n < max_attempts
  unfolding should_retry
  should_retry-lt s n h = ground arith

  abbrev pub Settles : ℕ → ℕ → Type 0
  Settles fuel from =
      (n : ℕ) × (n ≤ max_attempts - 1)
      × (is_final n ≡ true)
      × ((k : ℕ) → from ≤ k → k < n → is_final k ≡ false)
      × (attempt_from answers max_attempts fuel from ≡ some (answers n))

  attempt_from-Settles :
      (fuel from : ℕ) → fuel + from ≡ suc max_attempts → from ≤ max_attempts - 1 → Settles fuel from
  unfolding attempt_from
  attempt_from-Settles zero from e h = absurd (omega (arith, e, h))
  attempt_from-Settles (suc fuel) from e h = elim (Bool-cases (is_final from)) [
    | inl final ↦ (from, h, final, λ k lo hi. absurd (omega (arith, lo, hi)), ground arith)
    | inr again ↦
        let more : suc from ≤ max_attempts - 1 =
          ground (arith, should_retry-lt (sqlstate_at from) (suc from)) in
        let (n, bound, final, before, runs) =
          attempt_from-Settles fuel (suc from) (omega (arith, e)) more in
        (
          n,
          bound,
          final,
          λ k lo hi. elim (dec_lt from k) [
            | yes p ↦ before k p hi
            | no p ↦ let same : from ≡ k = omega (arith, lo, p) in rw (← same) again
          ],
          ground arith,
        )
  ]

  -- every attempt before `n` is repeated
  abbrev pub Repeated : ℕ → Type 0
  Repeated zero = Unit
  Repeated (suc n) = Repeated n × (is_final n ≡ false)

  all-Repeated : (n : ℕ) → ((k : ℕ) → k < n → is_final k ≡ false) → Repeated n
  all-Repeated zero h = tt
  all-Repeated (suc n) h = (all-Repeated n (λ k lt. h k (omega (arith, lt))), h n (omega arith))

-- However the database answers, the loop of a batch ends after at most `max_attempts` attempts, one
-- if that is 0. It gives the answer of the first attempt that committed or failed with an
-- error not worth repeating, the last one allowed counting as such.
pub attempt_from-first_final :
    {A : Type 0} (answers : ℕ → Answer A) (max_attempts : ℕ)
    → (n : ℕ) × (n ≤ max_attempts - 1)
      × (is_final answers max_attempts n ≡ true)
      × Repeated answers max_attempts n
      × (attempt_from answers max_attempts (suc max_attempts) 0 ≡ some (answers n))
attempt_from-first_final answers max_attempts =
    let (n, bound, final, before, runs) =
      attempt_from-Settles answers max_attempts (suc max_attempts) 0 (omega arith) (omega arith) in
    (n, bound, final, all-Repeated answers max_attempts n (λ k hi. before k (omega arith) hi), runs)

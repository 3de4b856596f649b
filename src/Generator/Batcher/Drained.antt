-- ===== src/Generator/Batcher/Drained.antt =====
-- What the loop over a batcher hands out.
use mathlib.Core.List.{append-nil, append_assoc}
use geotrack.Prelude.{
  concat, ℕ, zero, suc, ◌<◌, ◌≤◌, ◌≡◌, refl, true, false, List, [], ◌∷◌, ◌++◌, length, some, leb,
  arith, Bool-cases, inl, inr, ap, ◌∙◌, All, length-take-le, length-drop, take-append-drop,
  length-take-add-length-drop, subst,
}
use geotrack.Float.{Floats}
use geotrack.Generator.Batcher.{
  Batcher, ready, remaining, remaining_of, ready_at, take_batch, drain,
}

ready_at-pos :
    (fl : Floats) {A : Type 0} (size : ℕ) (reports : List A) (left : fl.F)
    → ready_at fl size reports (remaining_of fl reports left) ≡ true
    → 0 < length reports
ready_at-pos fl size [] left h = cc
ready_at-pos fl size (r ∷ rs) left h = omega arith

module _ (fl : Floats) {A : Type 0} where
  open fl use {F}

  ready-pos : (now : fl.F) (b : Batcher fl A) → ready fl now b ≡ true → 0 < length b.reports
  unfolding ready remaining
  ready-pos now b h = ready_at-pos fl b.size b.reports _ h

  take_batch-append :
      (b : Batcher fl A) → (take_batch fl b).0 ++ (take_batch fl b).1.reports ≡ b.reports
  unfolding take_batch
  take_batch-append b = elim (Bool-cases (leb (length b.reports) b.size)) [
    | inl fits ↦ rw fits (append-nil b.reports)
    | inr more ↦ rw more (take-append-drop b.size b.reports)
  ]

  take_batch-size : (b : Batcher fl A) → (take_batch fl b).1.size ≡ b.size
  unfolding take_batch
  take_batch-size b = ground arith

  -- not empty, and within the limit
  abbrev pub Fits : ℕ → List A → Type 0
  Fits size batch = (0 < length batch) × (length batch ≤ size)

  take_batch-Fits :
      (b : Batcher fl A) → 0 < b.size → 0 < length b.reports → Fits b.size (take_batch fl b).0
  unfolding take_batch
  take_batch-Fits b h k = ground (
    arith,
    length-take-le b.size b.reports,
    length-take-add-length-drop b.size b.reports,
    length-drop b.size b.reports,
  )

  take_batch-shrinks :
      (b : Batcher fl A)
      → 0 < b.size
      → 0 < length b.reports
      → length (take_batch fl b).1.reports < length b.reports
  unfolding take_batch
  take_batch-shrinks b h k = ground (arith, length-drop b.size b.reports)

  -- The loop ended with these batches and this batcher.
  abbrev pub Drained : F → Batcher fl A → List (List A) × Batcher fl A → Type 0
  Drained now b r =
      (concat r.0 ++ r.1.reports ≡ b.reports)
      × All (Fits b.size) r.0
      × (ready fl now r.1 ≡ false)
      × (r.1.size ≡ b.size)

  Drained-step :
      (now : F) (b : Batcher fl A) (r : List (List A) × Batcher fl A)
      → 0 < b.size
      → ready fl now b ≡ true
      → Drained now (take_batch fl b).1 r
      → Drained now b ((take_batch fl b).0 ∷ r.0, r.1)
  Drained-step now b r h go d =
      let same = take_batch-size b in
      (
        append_assoc (take_batch fl b).0 (concat r.0) r.1.reports
            ∙ ap (λ t. (take_batch fl b).0 ++ t) d.0
            ∙ take_batch-append b,
        (take_batch-Fits b h (ready-pos now b go), subst (λ n. All (Fits n) r.0) same d.1),
        d.2,
        d.3 ∙ same,
      )

  -- For a limit of one report at least, and as many rounds as there are reports and one more, the
  -- loop ends; then the batcher is not ready; the batches and what is left are the reports, in
  -- their order; no batch is empty or over the limit.
  pub drain-Drained :
      (n : ℕ) (now : F) (b : Batcher fl A)
      → 0 < b.size
      → length b.reports < n
      → (r : List (List A) × Batcher fl A) × (drain fl n now b ≡ some r) × Drained now b r
  unfolding drain
  drain-Drained zero now b h k = absurd (omega arith)
  drain-Drained (suc n) now b h k = elim (Bool-cases (ready fl now b)) [
    | inr stop ↦ (([], b), rw (stop, drain) refl, (refl, tt, stop, refl))
    | inl go ↦
        let b' = (take_batch fl b).1 in
        let less = take_batch-shrinks b h (ready-pos now b go) in
        let (r, e, d) = drain-Drained n now b' (rw (take_batch-size b) h) (omega arith) in
        (
          ((take_batch fl b).0 ∷ r.0, r.1),
          rw (go, drain) (rw (e, drain) refl),
          Drained-step now b r h go d,
        )
  ]

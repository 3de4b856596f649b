-- ===== src/Ingest/Device/Budget.antt =====
-- The budget counts the bad frames of the last minute.
use mathlib.Core.List.{append-nil, append_assoc}
use geotrack.Prelude.{
  ℕ, ◌-◌, ◌≤◌, ◌≡◌, refl, Bool, true, false, not, List, [], ◌∷◌, ◌++◌, length, leb, ltb, select,
  arith, Bool-cases, inl, inr,
}
use geotrack.Ingest.Device.{popleft_old, record_bad}

-- no older than the span
abbrev pub fresh : ℕ → ℕ → ℕ → Bool
fresh span now e = not (ltb span (now - e))

-- The times ascend, from one to another.
abbrev pub Ascending : ℕ → List ℕ → ℕ → Type 0
Ascending p [] now = p ≤ now
Ascending p (t ∷ ts) now = (p ≤ t) × Ascending t ts now

-- `_events` after bad frames at these times
abbrev pub budget_after : ℕ → ℕ → List ℕ → List ℕ → List ℕ
budget_after limit span [] events = events
budget_after limit span (t ∷ ts) events =
    budget_after limit span ts ((record_bad limit span t events).1)

popleft_old-popleft_old :
    (span p now : ℕ) (past : List ℕ)
    → p ≤ now
    → popleft_old span now (popleft_old span p past ++ (now ∷ []))
      ≡ popleft_old span now (past ++ (now ∷ []))
popleft_old-popleft_old span p now [] h = refl
popleft_old-popleft_old span p now (e ∷ past) h = elim (Bool-cases (ltb span (p - e))) [
  | inl old ↦
      let older : ltb span (now - e) ≡ true = ground (arith, old, h) in
      rw (old, older) (popleft_old-popleft_old span p now past h)
  | inr kept ↦ rw kept refl
]

budget_after-popleft_old :
    (limit span : ℕ) (ts past : List ℕ) (p now : ℕ)
    → Ascending p ts now
    → popleft_old span now (budget_after limit span ts (popleft_old span p past) ++ (now ∷ []))
      ≡ popleft_old span now ((past ++ ts) ++ (now ∷ []))
unfolding record_bad
budget_after-popleft_old limit span [] past p now h =
    rw append-nil (popleft_old-popleft_old span p now past h)
budget_after-popleft_old limit span (t ∷ ts) past p now h =
    rw
      (
        popleft_old-popleft_old span p t past h.0,
        budget_after-popleft_old limit span ts (past ++ (t ∷ [])) t now h.1,
        append_assoc past (t ∷ []) ts,
      )
      refl

select-fresh :
    (span p now : ℕ) (ts : List ℕ)
    → Ascending p ts now
    → ltb span (now - p) ≡ false
    → select (fresh span now) (ts ++ (now ∷ [])) ≡ ts ++ (now ∷ [])
select-fresh span p now [] a h = ground arith
select-fresh span p now (t ∷ ts) a h =
    let kept : ltb span (now - t) ≡ false = ground (arith, a.0, h) in
    rw (kept, select-fresh span t now ts a.1 kept) refl

popleft_old-select :
    (span p now : ℕ) (ts : List ℕ)
    → Ascending p ts now
    → popleft_old span now (ts ++ (now ∷ [])) ≡ select (fresh span now) (ts ++ (now ∷ []))
popleft_old-select span p now [] a = ground arith
popleft_old-select span p now (t ∷ ts) a = elim (Bool-cases (ltb span (now - t))) [
  | inl old ↦ rw old (popleft_old-select span t now ts a.1)
  | inr kept ↦ rw (kept, select-fresh span t now ts a.1 kept) refl
]

-- After bad frames at times that do not go back, one more is within the budget if and only if the
-- number of bad frames, this one included, that are no older than the window is at most the limit;
-- and these are the times that are kept.
pub record_bad-fresh :
    (limit span : ℕ) (ts : List ℕ) (now : ℕ)
    → Ascending 0 ts now
    → let recent = select (fresh span now) (ts ++ (now ∷ [])) in
      record_bad limit span now (budget_after limit span ts [])
      ≡ (leb (length recent) limit, recent)
unfolding record_bad
record_bad-fresh limit span ts now a =
    rw (budget_after-popleft_old limit span ts [] 0 now a, popleft_old-select span 0 now ts a) refl

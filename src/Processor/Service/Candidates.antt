-- ===== src/Processor/Service/Candidates.antt =====
-- What a replica picks up: the candidates of its plan have no consumer, and are tried once.
use geotrack.Prelude.{
  ℕ, ◌≤◌, ◌<◌, ◌≡◌, ◌≢◌, true, List, [], ◌∷◌, none, some, ℕ_discrete, arith, times, Option-cases,
  inl, inr, ◌∙◌,
}
use geotrack.Prelude.Dict.{Dict, get, put, get-put_ne}
use geotrack.Prelude.Index.{member}
use geotrack.Processor.Service.{Running, keys}

-- The candidates have no consumer, and none stands there twice.
abbrev pub Fresh : List ℕ → Dict ℕ Running → Type 0
Fresh [] d = Unit
Fresh (c ∷ cs) d = (times c cs ≡ 0) × (get ℕ_discrete c d ≡ none) × Fresh cs d

pub Fresh-put :
    (c : ℕ) (v : Running) (cs : List ℕ) (d : Dict ℕ Running)
    → times c cs ≡ 0
    → Fresh cs d
    → Fresh cs (put ℕ_discrete c v d)
Fresh-put c v [] d a h = tt
Fresh-put c v (e ∷ cs) d a h =
    let apart : c ≢ e = λ p. absurd (ground arith) in
    (h.0, get-put_ne ℕ_discrete c e v d apart ∙ h.1, Fresh-put c v cs d (ground arith) h.2)

pub Fresh-of :
    (cs : List ℕ) (d : Dict ℕ Running)
    → ((i : ℕ) → times i cs ≤ 1)
    → ((i : ℕ) → 0 < times i cs → get ℕ_discrete i d ≡ none)
    → Fresh cs d
Fresh-of [] d once free = tt
Fresh-of (c ∷ cs) d once free = (
  ground (arith, once c),
  free c (ground arith),
  Fresh-of cs d (λ i. ground (arith, once i)) (λ i h. free i (ground (arith, h))),
)

member-keys :
    (k : ℕ) (v : Running) (d : Dict ℕ Running)
    → get ℕ_discrete k d ≡ some v
    → member ℕ_discrete k (keys d) ≡ true
unfolding get member
member-keys k v [] h = cc
member-keys k v ((j, w) ∷ d) h = ground (arith, member-keys k v d)

pub not_owned :
    (i : ℕ) (d : Dict ℕ Running) (n : ℕ)
    → (member ℕ_discrete i (keys d) ≡ true → n ≡ 0)
    → 0 < n
    → get ℕ_discrete i d ≡ none
not_owned i d n h p = elim (Option-cases (get ℕ_discrete i d)) [
  | inl miss ↦ miss
  | inr (v, hit) ↦ let zero_times = h (member-keys i v d hit) in absurd (omega arith)
]

-- ===== src/Realtime/Admission/Cap.antt =====
-- Replicas that read the same list let in no more sessions than the cap.
use geotrack.Prelude.{
  ℕ, ◌-◌, ◌≤◌, ◌<◌, ◌≡◌, ◌≢◌, refl, ◌⊎◌, inl, inr, Bool, true, false, List, [], ◌∷◌, some, select,
  length, ltb, ◌==◌, All, All-In, In, here, there, Bool-cases, arith,
}
use geotrack.Realtime.Admission.{SessionInfo, older, find_session, rank_of, session_joined}

length-select_mono {ℓ} :
    {A : Type ℓ} (p q : A → Bool) (xs : List A)
    → ((x : A) → In x xs → p x ≡ true → q x ≡ true)
    → length (select p xs) ≤ length (select q xs)
length-select_mono p q [] h = omega arith
length-select_mono p q (x ∷ xs) h =
    let rest = length-select_mono p q xs (λ y m. h y (there m)) in
    elim (Bool-cases (p x)) [
      | inl e ↦ rw (e, h x here e) (omega (arith, rest))
      | inr e ↦ elim (Bool-cases (q x)) [
        | inl f ↦ rw (e, f) (omega (arith, rest))
        | inr f ↦ rw (e, f) rest
      ]
    ]

module _ {A : Type 0} (lt : A → A → Bool) (irrefl : (x : A) → lt x x ≡ false)
    (trans : (x y z : A) → lt x y ≡ true → lt y z ≡ true → lt x z ≡ true) where
  -- how many are before
  abbrev rank : A → List A → ℕ
  rank x xs = length (select (λ y. lt y x) xs)

  rank_mono : (x z : A) (xs : List A) → In x xs → lt x z ≡ true → rank x xs < rank z xs
  rank_mono x z [] m h = elim m [ ]
  rank_mono x z (y ∷ xs) here h =
      let fewer = length-select_mono (λ v. lt v x) (λ v. lt v z) xs (λ v m k. trans v x z k h) in
      rw (irrefl x, h) (omega (arith, fewer))
  rank_mono x z (y ∷ xs) (there m) h =
      let rest = rank_mono x z xs m h in
      elim (Bool-cases (lt y x)) [
        | inl e ↦ rw (e, trans y x z e h) (omega (arith, rest))
        | inr e ↦ elim (Bool-cases (lt y z)) [
          | inl f ↦ rw (e, f) (omega (arith, rest))
          | inr f ↦ rw (e, f) rest
        ]
      ]

  -- Any two are comparable.
  abbrev Comparable : List A → Type 0
  Comparable [] = Unit
  Comparable (z ∷ xs) = All (λ x. (lt x z ≡ true) ⊎ (lt z x ≡ true)) xs × Comparable xs

  first_le : (k : ℕ) (xs : List A) → Comparable xs → length (select (λ x. ltb (rank x xs) k) xs) ≤ k
  first_le k [] c = omega arith
  first_le k (z ∷ xs) c = elim (Bool-cases (ltb (rank z xs) k)) [
    | inl soon ↦
        let own : ltb (rank z (z ∷ xs)) k ≡ true = rw (irrefl z) soon in
        let before = first_le (k - 1) xs c.1 in
        let fewer =
          length-select_mono (λ x. ltb (rank x (z ∷ xs)) k) (λ x. ltb (rank x xs) (k - 1)) xs
            (sooner soon) in
        rw own (ground (arith, before, fewer, soon))
    | inr late ↦
        let own : ltb (rank z (z ∷ xs)) k ≡ false = rw (irrefl z) late in
        let before = first_le k xs c.1 in
        let fewer =
          length-select_mono (λ x. ltb (rank x (z ∷ xs)) k) (λ x. ltb (rank x xs) k) xs kept in
        rw own (omega (arith, before, fewer))
  ]
    where
      kept : (x : A) → In x xs → ltb (rank x (z ∷ xs)) k ≡ true → ltb (rank x xs) k ≡ true
      kept x m h = elim (Bool-cases (lt z x)) [
        | inl e ↦ let h' = rw e at h in ground (arith, h')
        | inr e ↦ rw e at h
      ]

      sooner :
          ltb (rank z xs) k ≡ true
          → (x : A) → In x xs
          → ltb (rank x (z ∷ xs)) k ≡ true
          → ltb (rank x xs) (k - 1) ≡ true
      sooner soon x m h = elim (All-In (λ x. (lt x z ≡ true) ⊎ (lt z x ≡ true)) c.0 m) [
        | inl before ↦ let less = rank_mono x z xs m before in ground (arith, less, soon)
        | inr after ↦ let h' = rw after at h in ground (arith, h')
      ]

older_irrefl : (s : SessionInfo) → older s s ≡ false
unfolding older
older_irrefl s = ground arith

older_trans : (a b c : SessionInfo) → older a b ≡ true → older b c ≡ true → older a c ≡ true
unfolding older
older_trans a b c h k = ground (arith, h, k)

older_total : (a b : SessionInfo) → a.id ≢ b.id → (older a b ≡ true) ⊎ (older b a ≡ true)
unfolding older
older_total a b h = elim (Bool-cases (older a b)) [
  | inl e ↦ inl e
  | inr e ↦ inr (ground (arith, e, h))
]

-- No two entries are of one session.
abbrev pub DistinctIds : List SessionInfo → Type 0
DistinctIds [] = Unit
DistinctIds (z ∷ xs) = All (λ x. x.id ≢ z.id) xs × DistinctIds xs

DistinctIds-Comparable :
    (xs : List SessionInfo) → DistinctIds xs → Comparable older older_irrefl older_trans xs
DistinctIds-Comparable [] d = tt
DistinctIds-Comparable (z ∷ xs) d = (each xs d.0, DistinctIds-Comparable xs d.1)
  where
    each :
        (ys : List SessionInfo)
        → All (λ x. x.id ≢ z.id) ys
        → All (λ x. (older x z ≡ true) ⊎ (older z x ≡ true)) ys
    each [] h = tt
    each (y ∷ ys) h = (older_total y z h.0, each ys h.1)

find_session-In :
    (s : SessionInfo) (xs : List SessionInfo)
    → DistinctIds xs
    → In s xs
    → find_session s.id xs ≡ some s
unfolding find_session
find_session-In s [] d m = elim m [ ]
find_session-In s (x ∷ xs) d here = let same : (x.id == x.id) ≡ true = ground arith in rw same refl
find_session-In s (x ∷ xs) d (there m) =
    let apart = All-In (λ y. y.id ≢ x.id) d.0 m in
    let other : (x.id == s.id) ≡ false = ground (arith, apart) in
    rw other (find_session-In s xs d.1 m)

rank_of-rank :
    (s : SessionInfo) (xs : List SessionInfo)
    → DistinctIds xs
    → In s xs
    → rank_of s.id xs ≡ rank older older_irrefl older_trans s xs
unfolding rank_of
rank_of-rank s xs d m = rw (find_session-In s xs d m) refl

-- Of the sessions of a user that the directory lists, with different ids, no more are let in than
-- the cap by all the replicas that read this list, and an older session is let in if a younger one
-- is.
pub session_joined-cap :
    (cap : ℕ) (sessions : List SessionInfo)
    → DistinctIds sessions
    → (length (select (λ s. session_joined cap s.id (some sessions)) sessions) ≤ cap)
      × ((a b : SessionInfo)
          → In a sessions
          → In b sessions
          → older a b ≡ true
          → session_joined cap b.id (some sessions) ≡ true
          → session_joined cap a.id (some sessions) ≡ true)
unfolding session_joined
session_joined-cap cap sessions d =
    let first =
      first_le older older_irrefl older_trans cap sessions (DistinctIds-Comparable sessions d) in
    let fewer =
      length-select_mono (λ s. session_joined cap s.id (some sessions))
        (λ s. ltb (rank older older_irrefl older_trans s sessions) cap) sessions
        (λ s m h. let r = rank_of-rank s sessions d m in ground (arith, r, h)) in
    (
      omega (arith, first, fewer),
      (λ a b m n h k.
          let less = rank_mono older older_irrefl older_trans a b sessions m h in
          let ra = rank_of-rank a sessions d m in
          let rb = rank_of-rank b sessions d n in ground (arith, less, ra, rb, k)),
    )

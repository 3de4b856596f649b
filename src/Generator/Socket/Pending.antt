-- ===== src/Generator/Socket/Pending.antt =====
-- The frames that a worker waits for an answer to: how many they are, and what they carry.
use geotrack.Prelude.{
  total, ℕ, ◌+◌, ◌-◌, ◌<◌, ◌≤◌, ◌≡◌, refl, List, [], ◌∷◌, length, take, Option, none, some, ltb,
  leb, arith, Bool-cases, Option-cases, inl, inr, if_pos, if_neg, ℕ_discrete, All,
}
use geotrack.Prelude.Dict.{Dict, get, put, pop}
use geotrack.Float.{Floats}
use geotrack.Generator.{Random}
use geotrack.Generator.Socket.{
  carried, pending_acks_max, insert_up, sorted_keys, remove_all, Worker, remember,
}

insert_up-All : (P : ℕ → Type 0) (k : ℕ) (ks : List ℕ) → P k → All P ks → All P (insert_up k ks)
unfolding insert_up
insert_up-All P k [] p h = (p, tt)
insert_up-All P k (j ∷ js) p h = elim (Bool-cases (leb k j)) [
  | inl first ↦ rw first (p, h)
  | inr later ↦ rw later (h.0, insert_up-All P k js p h.1)
]

length-insert_up : (k : ℕ) (ks : List ℕ) → length (insert_up k ks) ≡ length ks + 1
unfolding insert_up
length-insert_up k [] = refl
length-insert_up k (j ∷ js) = ground (arith, length-insert_up k js)

module _ {V : Type 0} where
  pub length-pop-le : (k : ℕ) (d : Dict ℕ V) → length (pop ℕ_discrete k d) ≤ length d
  unfolding pop
  length-pop-le k [] = omega arith
  length-pop-le k ((j, v) ∷ d) = ground (arith, length-pop-le k d)

  length-pop-lt :
      (k : ℕ) (v : V) (d : Dict ℕ V)
      → get ℕ_discrete k d ≡ some v
      → length (pop ℕ_discrete k d) < length d
  unfolding pop get
  length-pop-lt k v [] h = cc
  length-pop-lt k v ((j, w) ∷ d) h = ground (arith, length-pop-lt k v d, length-pop-le k d)

  length-put-le : (k : ℕ) (v : V) (d : Dict ℕ V) → length (put ℕ_discrete k v d) ≤ length d + 1
  unfolding put
  length-put-le k v [] = omega arith
  length-put-le k v ((j, w) ∷ d) = ground (arith, length-put-le k v d)

  -- a key with its value
  abbrev Stored : Dict ℕ V → ℕ → Type 0
  Stored d k = (v : V) × (get ℕ_discrete k d ≡ some v)

  Stored-cons : (j k : ℕ) (w : V) (d : Dict ℕ V) → Stored d k → Stored ((j, w) ∷ d) k
  unfolding get
  Stored-cons j k w d (v, h) = elim (ℕ_discrete j k) [
    | yes p ↦ (w, if_pos (ℕ_discrete j k) p (some w) (get ℕ_discrete k d))
    | no p ↦ (v, rw (if_neg (ℕ_discrete j k) p (some w) (get ℕ_discrete k d)) h)
  ]

  All-Stored-cons :
      (j : ℕ) (w : V) (d : Dict ℕ V) (ks : List ℕ)
      → All (Stored d) ks
      → All (Stored ((j, w) ∷ d)) ks
  All-Stored-cons j w d [] h = tt
  All-Stored-cons j w d (k ∷ ks) h = (Stored-cons j k w d h.0, All-Stored-cons j w d ks h.1)

  sorted_keys-Stored : (d : Dict ℕ V) → All (Stored d) (sorted_keys d)
  unfolding sorted_keys get
  sorted_keys-Stored [] = tt
  sorted_keys-Stored ((j, w) ∷ d) =
      insert_up-All (Stored ((j, w) ∷ d)) j (sorted_keys d)
        (w, if_pos (ℕ_discrete j j) refl (some w) (get ℕ_discrete j d))
        (All-Stored-cons j w d (sorted_keys d) (sorted_keys-Stored d))

  module _ (size : V → ℕ) where
    -- what a dict holds in all
    abbrev pub stored : Dict ℕ V → ℕ
    stored d = total (λ (e : ℕ × V). size e.1) d

    abbrev size_of : Option V → ℕ
    size_of none = 0
    size_of (some v) = size v

    pub stored-pop-le :
        (k : ℕ) (d : Dict ℕ V)
        → stored (pop ℕ_discrete k d) + size_of (get ℕ_discrete k d) ≤ stored d
    unfolding pop get
    stored-pop-le k [] = omega arith
    stored-pop-le k ((j, v) ∷ d) = ground (arith, stored-pop-le k d)

    stored-put-le :
        (k : ℕ) (v : V) (d : Dict ℕ V) → stored (put ℕ_discrete k v d) ≤ stored d + size v
    unfolding put
    stored-put-le k v [] = omega arith
    stored-put-le k v ((j, w) ∷ d) = ground (arith, stored-put-le k v d)

  length-sorted_keys : (d : Dict ℕ V) → length (sorted_keys d) ≡ length d
  unfolding sorted_keys
  length-sorted_keys [] = refl
  length-sorted_keys ((k, v) ∷ d) =
      omega (arith, length-insert_up k (sorted_keys d), length-sorted_keys d)

  -- One key too many: the first of the stored ones goes.
  trimmed :
      (size : V → ℕ) (d : Dict ℕ V) (ks : List ℕ)
      → All (Stored d) ks
      → 0 < length ks
      → length d ≡ pending_acks_max + 1
      → let d' = remove_all (take (length d - pending_acks_max) ks) d in
        (length d' ≤ pending_acks_max) × (stored size d' ≤ stored size d)
  unfolding remove_all
  trimmed size d [] h k e = absurd (omega arith)
  trimmed size d (k ∷ ks) h l e =
      let one : length d - pending_acks_max ≡ 1 = omega arith in
      let less = length-pop-lt k h.0.0 d h.0.1 in
      rw one (omega arith, omega (arith, stored-pop-le size k d))

module _ (fl : Floats) (rnd : Random fl) where
  -- the reports of the frames that wait
  abbrev pub outstanding : Worker fl rnd → ℕ
  outstanding w = stored (λ (e : fl.F × ℕ). e.1) w.pending

  -- A frame that is popped is waited for no more.
  pub outstanding-pop :
      (seq : ℕ) (w : Worker fl rnd)
      → carried fl rnd (get ℕ_discrete seq w.pending)
          + outstanding (record w { pending = pop ℕ_discrete seq w.pending })
        ≤ outstanding w
  outstanding-pop seq w =
      let p = stored-pop-le (λ (e : fl.F × ℕ). e.1) seq w.pending in
      elim (Option-cases (get ℕ_discrete seq w.pending)) [
        | inl miss ↦ ground (arith, miss, p)
        | inr (e, hit) ↦ ground (arith, hit, p)
      ]

  pub remember_bounds :
      (seq : ℕ) (at : fl.F) (size : ℕ) (w : Worker fl rnd)
      → length w.pending ≤ pending_acks_max
      → (length (remember fl rnd seq at size w).pending ≤ pending_acks_max)
        × (outstanding (remember fl rnd seq at size w) ≤ outstanding w + size)
  unfolding remember
  remember_bounds seq at size w h =
      let p = put ℕ_discrete seq (at, size) w.pending in
      let longer = length-put-le seq (at, size) w.pending in
      let more = stored-put-le (λ (e : fl.F × ℕ). e.1) seq (at, size) w.pending in
      elim (Bool-cases (ltb pending_acks_max (length p))) [
        | inr fits ↦ rw fits (ground arith, more)
        | inl over ↦
            let e : length p ≡ pending_acks_max + 1 = ground arith in
            let keys = length-sorted_keys p in
            let t =
              trimmed (λ (e : fl.F × ℕ). e.1) p (sorted_keys p) (sorted_keys-Stored p) (omega arith)
                e in
            rw over (t.0, omega arith)
      ]

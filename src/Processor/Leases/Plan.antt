-- ===== src/Processor/Leases/Plan.antt =====
-- What a plan gives back and what it offers to take.
use native.Mathlib.Nat.{mod-lt, mod-eq_of_lt, add-mod_right}
use geotrack.Prelude.{
  ℕ, zero, suc, ◌+◌, ◌-◌, ◌*◌, ◌%◌, ◌≤◌, ◌<◌, ◌≡◌, refl, subst, ◌↔◌, Bool, true, false, List, [],
  ◌∷◌, length, select, take, not, max, min, arith, ℕ_discrete, dec_lt, if◌then◌else◌,
}
use geotrack.Prelude.Index.{member}
use geotrack.Processor.Leases.{
  ceil_div, insert_down, sorted_down, order_from, rotation_of, fair_share_plan,
}

abbrev pub owns : ℕ → List ℕ → Bool
owns s owned = member ℕ_discrete s owned

ceil_div-covers : (shards live : ℕ) → 0 < live → shards ≤ live * ceil_div shards live
unfolding ceil_div
ceil_div-covers shards live h = omega (arith, h)

ceil_div_least : (shards live : ℕ) → 0 < live → live * ceil_div shards live < shards + live
unfolding ceil_div
ceil_div_least shards live h = omega (arith, h)

length-insert_down : (x : ℕ) (ys : List ℕ) → length (insert_down x ys) ≡ suc (length ys)
unfolding insert_down
length-insert_down x [] = refl
length-insert_down x (y ∷ ys) = ground (arith, length-insert_down x ys)

length-sorted_down : (xs : List ℕ) → length (sorted_down xs) ≡ length xs
unfolding sorted_down
length-sorted_down [] = refl
length-sorted_down (x ∷ xs) =
    ground (arith, length-insert_down x (sorted_down xs), length-sorted_down xs)

length-take : (n : ℕ) (xs : List ℕ) → n ≤ length xs → length (take n xs) ≡ n
length-take zero xs h = refl
length-take (suc n) [] h = absurd (omega (arith, h))
length-take (suc n) (x ∷ xs) h = ground (arith, length-take n xs)

-- where a shard stands in the order that starts at a rotation
member-order_from :
    (rotation shards step n k : ℕ)
    → step ≤ k
    → k < step + n
    → member ℕ_discrete ((rotation + k) % shards) (order_from rotation shards step n) ≡ true
unfolding order_from member
member-order_from rotation shards step zero k lo hi = absurd (omega (arith, lo, hi))
member-order_from rotation shards step (suc n) k lo hi = elim (ℕ_discrete step k) [
  | yes p ↦ rw p ground arith
  | no p ↦ ground (
    arith,
    member-order_from rotation shards (suc step) n k (omega (arith, lo, p)) (omega (arith, hi)),
  )
]

-- every shard stands in the order
shard_step :
    (rotation shards s : ℕ)
    → rotation < shards
    → s < shards
    → (k : ℕ) × (k < shards) × ((rotation + k) % shards ≡ s)
shard_step rotation shards s r h = elim (dec_lt s rotation) [
  | yes p ↦
      let wrapped : rotation + (s + shards - rotation) ≡ s + shards = omega (arith, p, r) in
      (
        s + shards - rotation,
        omega (arith, p, r),
        rw (wrapped, add-mod_right s shards) (mod-eq_of_lt h),
      )
  | no p ↦
      let straight : rotation + (s - rotation) ≡ s = omega (arith, p) in
      (s - rotation, omega (arith, h), rw straight (mod-eq_of_lt h))
]

member-order_lt :
    (rotation shards s step n : ℕ)
    → 0 < shards
    → member ℕ_discrete s (order_from rotation shards step n) ≡ true
    → s < shards
unfolding order_from member
member-order_lt rotation shards s step zero h m = absurd (ground arith)
member-order_lt rotation shards s step (suc n) h m =
    elim (ℕ_discrete ((rotation + step) % shards) s) [
      | yes p ↦ rw (← p) (mod-lt (rotation + step) h)
      | no p ↦ member-order_lt rotation shards s (suc step) n h (ground arith)
    ]

member-select :
    (s : ℕ) (keep : ℕ → Bool) (xs : List ℕ)
    → member ℕ_discrete s (select keep xs) ≡ (if keep s then member ℕ_discrete s xs else false)
unfolding member
member-select s keep [] = ground arith
member-select s keep (x ∷ xs) = elim (ℕ_discrete x s) [
  | yes p ↦ rw p (ground (arith, member-select s keep xs))
  | no p ↦ ground (arith, member-select s keep xs)
]

member-insert_down :
    (s x : ℕ) (ys : List ℕ) → member ℕ_discrete s (insert_down x ys) ≡ member ℕ_discrete s (x ∷ ys)
unfolding member insert_down
member-insert_down s x [] = refl
member-insert_down s x (y ∷ ys) = ground (arith, member-insert_down s x ys)

member-sorted_down : (s : ℕ) (xs : List ℕ) → owns s (sorted_down xs) ≡ owns s xs
unfolding member sorted_down
member-sorted_down s [] = refl
member-sorted_down s (x ∷ xs) =
    ground (arith, member-insert_down s x (sorted_down xs), member-sorted_down s xs)

member-take : (s n : ℕ) (xs : List ℕ) → owns s (take n xs) ≡ true → owns s xs ≡ true
unfolding member
member-take s zero xs m = absurd (ground arith)
member-take s (suc n) [] m = m
member-take s (suc n) (x ∷ xs) m = ground (arith, member-take s n xs)

rotation_lt : (offset shards : ℕ) → 0 < shards → rotation_of offset shards < shards
rotation_lt offset zero h = absurd (omega (arith, h))
rotation_lt offset (suc n) h = mod-lt offset h

abbrev ring : ℕ → ℕ → List ℕ
ring offset shards = order_from (rotation_of offset shards) shards 0 shards

no_one : (x : ℕ) → owns x [] ≡ false
unfolding member
no_one x = refl

no_ring : (offset x : ℕ) → owns x (ring offset 0) ≡ true → ⊥
unfolding order_from member
no_ring offset x m = ground arith

-- the ring holds the shards, from whichever it starts
member-ring : (offset shards s : ℕ) → (owns s (ring offset shards) ≡ true) ↔ (s < shards)
member-ring offset shards s = (
  λ m. elim (dec_lt 0 shards) [
    | yes p ↦ member-order_lt (rotation_of offset shards) shards s 0 shards p m
    | no p ↦
        let none_left : shards ≡ 0 = omega (arith, p) in
        absurd (no_ring offset s (subst (λ n. owns s (ring offset n) ≡ true) none_left m))
  ],
  λ h.
      let (k, lt, at) =
        shard_step (rotation_of offset shards) shards s
          (rotation_lt offset shards (omega (arith, h))) h in
      let m =
        member-order_from (rotation_of offset shards) shards 0 shards k (omega arith)
          (omega (arith, lt)) in
      subst (λ x. owns x (ring offset shards) ≡ true) at m,
)

-- A replica that holds fewer shards than its target is offered exactly the shards of the ring that
-- it does not hold, wherever its rotation starts.
pub fair_share_plan-offers :
    (shards : ℕ) (owned : List ℕ) (live offset s : ℕ)
    → length owned < (fair_share_plan shards owned live offset).target
    → (owns s (fair_share_plan shards owned live offset).candidates ≡ true)
      ↔ ((s < shards) × (owns s owned ≡ false))
unfolding fair_share_plan
fair_share_plan-offers shards owned live offset s below =
    let taken = member-select s (λ x. not (owns x owned)) (ring offset shards) in
    let all = member-ring offset shards s in
    (λ m. ground (arith, taken, all, below), λ h. ground (arith, taken, all, below))

-- The targets of the live replicas cover the ring, with less than one shard too many for each of
-- them. A replica gives back exactly as many shards as it holds over its target, from those it holds.
pub fair_share_plan-balances :
    (shards : ℕ) (owned : List ℕ) (live offset s : ℕ)
    → let plan = fair_share_plan shards owned live offset in
      (shards ≤ plan.live * plan.target)
      × (plan.live * plan.target < shards + plan.live)
      × (length owned ≡ length plan.release + min (length owned) plan.target)
      × ((if owns s plan.release then owns s owned else true) ≡ true)
unfolding fair_share_plan
fair_share_plan-balances shards owned live offset s =
    let live' = max live 1 in
    let target = ceil_div shards live' in
    let surplus = length owned - target in
    let some_live : 0 < live' = omega arith in
    let covers = ceil_div-covers shards live' some_live in
    let least = ceil_div_least shards live' some_live in
    let counted = length-take surplus (sorted_down owned) in
    let sorted = length-sorted_down owned in
    (
      ground (arith, covers),
      ground (arith, least),
      ground (arith, counted, sorted),
      ground
          (arith, member-take s surplus (sorted_down owned), member-sorted_down s owned, no_one s),
    )

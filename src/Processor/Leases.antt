-- ===== src/Processor/Leases.antt =====
-- src/geotrack/processor/leases.py: `fair_share_plan`, what a replica should hold.
pub mod Plan
pub mod Ring
pub mod Manager
pub mod Owner
use geotrack.Prelude.{
  ℕ, zero, suc, ◌+◌, ◌-◌, ◌/◌, ◌%◌, max, Bool, List, [], ◌∷◌, length, select, take, not, map, leb,
  ltb, if◌then◌else◌, ℕ_discrete,
}
use geotrack.Prelude.Index.{member}

pub record RebalancePlan : Type 0 where
  pub live : ℕ
  pub target : ℕ
  pub candidates : List ℕ
  pub release : List ℕ

-- `math.ceil(shards / live)`, for a positive `live`
unfoldable pub ceil_div : ℕ → ℕ → ℕ
ceil_div shards live = (shards + (live - 1)) / live

-- `sorted(owned, reverse=True)`
unfoldable pub insert_down : ℕ → List ℕ → List ℕ
insert_down x [] = x ∷ []
insert_down x (y ∷ ys) = let rest = insert_down x ys in if leb y x then x ∷ y ∷ ys else y ∷ rest

unfoldable pub sorted_down : List ℕ → List ℕ
unfolding insert_down
sorted_down [] = []
sorted_down (x ∷ xs) = insert_down x (sorted_down xs)

-- `[(rotation + step) % shards for step in range(shards)]`, from a step on
unfoldable pub order_from : ℕ → ℕ → ℕ → ℕ → List ℕ
order_from rotation shards step zero = []
order_from rotation shards step (suc n) =
    ((rotation + step) % shards) ∷ order_from rotation shards (suc step) n

-- `offset % shards if shards else 0`
abbrev pub rotation_of : ℕ → ℕ → ℕ
rotation_of offset zero = zero
rotation_of offset (suc n) = offset % suc n

unfoldable pub fair_share_plan : ℕ → List ℕ → ℕ → ℕ → RebalancePlan
fair_share_plan shards owned live offset =
    let live' = max live 1 in
    let target = ceil_div shards live' in
    if ltb target (length owned)
    then record {
      live = live';
      target = target;
      candidates = [];
      release = take (length owned - target) (sorted_down owned);
    }
    else record {
      live = live';
      target = target;
      candidates =
          if ltb (length owned) target
          then select (λ s. not (member ℕ_discrete s owned))
              (order_from (rotation_of offset shards) shards 0 shards)
          else [];
      release = [];
    }

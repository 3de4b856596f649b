-- ===== src/Tests/Leases.antt =====
-- src/geotrack/processor/leases.py: eight shards, three replicas, and a store without expiry.
use Prim.Native.String.{String}
use geotrack.Prelude.{
  ℕ, zero, suc, ◌+◌, ◌*◌, ◌≤◌, ◌<◌, ◌≡◌, ◌≢◌, refl, ap, ◌↔◌, Bool, true, false, List, [], ◌∷◌, ◌++◌,
  In, ℕ_discrete, Option, none, some, length, min, if◌then◌else◌, arith,
}
use geotrack.Prelude.Dict.{Dict, get, put, pop, get-put_self, get-put_ne, get-pop_self, get-pop_ne}
use geotrack.Prelude.Index.{member}
use geotrack.Prelude.Text.{String-discrete as same_text}
use geotrack.Processor.Leases.{fair_share_plan, ceil_div, order_from}
use geotrack.Processor.Leases.Plan.{owns, fair_share_plan-offers, fair_share_plan-balances}
use geotrack.Processor.Leases.Manager.{
  Redis, Documented, Manager, owned_by, acquire, renew, release,
}
use geotrack.Processor.Leases.Owner.{
  acquires, renews, releases, operate_all, operate_all-held, is_free, lease-life,
}
use geotrack.Processor.Service.{
  Service, Event, reconciles, renews, drained, keys, new_service, happen_all, stop, happen,
  reap_finished, begin_drain_all, begin_drain, pick_up, start_consumer, finish_drain, remove_one,
  renew_leases, renew_all, release_quietly, reconcile_shards, lose_all,
}
use geotrack.Processor.Service.OneReader.{outlived, new_service-OneReader}
use geotrack.Processor.Service.Steps.{OneReader}
use geotrack.Processor.Service.Stopped.{Free, stop-Free}

abbrev Store : Type 0
Store = Dict String String

abbrev set_if : Option String → String → String → Store → Store × Bool
set_if (some v) k w s = (s, false)
set_if none k w s = (put same_text k w s, true)

abbrev reply : Option String → ℕ
reply none = 0
reply (some v) = 1

abbrev memory : Redis Store
memory = record {
  get = λ k s. get same_text k s;
  set_nx = λ k w ttl s. set_if (get same_text k s) k w s;
  pexpire = λ k ttl s. (s, reply (get same_text k s));
  del = λ k s. (pop same_text k s, reply (get same_text k s));
}

set_if-other :
    (o : Option String) (k j w : String) (s : Store)
    → k ≢ j
    → get same_text j (set_if o k w s).0 ≡ get same_text j s
set_if-other none k j w s h = get-put_ne same_text k j w s h
set_if-other (some v) k j w s h = refl

memory-Documented : Documented memory
memory-Documented = record {
  set_nx-held = λ k v w ttl s h. ground arith;
  set_nx-free = λ k w ttl s h. ground (arith, get-put_self same_text k w s);
  set_nx-other = λ k j w ttl s h. set_if-other (get same_text k s) k j w s h;
  pexpire-get = λ k j ttl s. refl;
  pexpire-held = λ k v ttl s h. ground arith;
  del-get = λ k s. get-pop_self same_text k s;
  del-other = λ k j s h. get-pop_ne same_text k j s h;
}

abbrev key_of : ℕ → String
key_of zero = "lease:0"
key_of (suc n) = "lease:1"

abbrev east : Manager
east = record { instance_id = "east"; ttl_ms = 30_000; lease_key = key_of }

abbrev leased : Store
leased = ("lease:0", "west") ∷ []

program : Unit {0}
unfolding get put pop member same_text fair_share_plan ceil_div
program = tt

west_held : get same_text "lease:0" leased ≡ some "west"
unfolding program
west_held = refl

abbrev west : String
west = "west"

west_other : west ≢ east.instance_id
unfolding program
west_other p =
    let differ : false ≡ true = ap (λ x. owned_by "east" (some x)) p in ground (arith, differ)

operate_all-held_example :
    memory.get "lease:0"
      (operate_all memory east (acquires 0 ∷ renews 0 ∷ releases 0 ∷ acquires 1 ∷ []) leased)
    ≡ some "west"
operate_all-held_example =
    operate_all-held memory memory-Documented east "lease:0" "west" west_other
      (acquires 0 ∷ renews 0 ∷ releases 0 ∷ acquires 1 ∷ []) leased west_held

lease-life_example :
    ((acquire memory east 1 leased).1 ≡ is_free (memory.get "lease:1" leased))
    × (memory.get "lease:1" (acquire memory east 1 leased).0 ≡ (
        if is_free (memory.get "lease:1" leased) then some "east" else memory.get "lease:1" leased))
    × ((renew memory east 1 leased).1 ≡ owned_by "east" (memory.get "lease:1" leased))
    × (memory.get "lease:1" (renew memory east 1 leased).0 ≡ memory.get "lease:1" leased)
    × (memory.get "lease:1" (release memory east 1 leased) ≡ (
        if owned_by "east" (memory.get "lease:1" leased)
        then none
        else memory.get "lease:1" leased))
lease-life_example = lease-life memory memory-Documented east 1 leased

below : 2 < (fair_share_plan 8 (0 ∷ 5 ∷ []) 3 6).target
unfolding program
below = omega arith

fair_share_plan-offers_example :
    (owns 7 (fair_share_plan 8 (0 ∷ 5 ∷ []) 3 6).candidates ≡ true)
    ↔ ((7 < 8) × (owns 7 (0 ∷ 5 ∷ []) ≡ false))
fair_share_plan-offers_example = fair_share_plan-offers 8 (0 ∷ 5 ∷ []) 3 6 7 below

fair_share_plan-balances_example :
    let plan = fair_share_plan 8 (0 ∷ 5 ∷ 6 ∷ 7 ∷ []) 3 6 in
    (8 ≤ plan.live * plan.target)
    × (plan.live * plan.target < 8 + plan.live)
    × (4 ≡ length plan.release + min 4 plan.target)
    × ((if owns 7 plan.release then owns 7 (0 ∷ 5 ∷ 6 ∷ 7 ∷ []) else true) ≡ true)
fair_share_plan-balances_example = fair_share_plan-balances 8 (0 ∷ 5 ∷ 6 ∷ 7 ∷ []) 3 6 7

-- One shard, which the replica takes, hands back while another one joins, and takes up again.
abbrev shift : List Event
shift =
    reconciles (λ s. false) (some 1) (λ s. true)
    ∷ renews (λ s. true)
    ∷ reconciles (λ s. true) (some 1) (λ s. true)
    ∷ drained (λ s. true) true 0
    ∷ reconciles (λ s. false) none (λ s. false)
    ∷ []

new_service-OneReader_example :
    OneReader (outlived shift) (happen_all memory east 1 0 shift (new_service []))
new_service-OneReader_example = new_service-OneReader memory east 1 0 shift []

-- A replica that consumes one shard and drains the other.
abbrev busy : Service Store
busy = record {
  consumers = (0, record { stop_requested = false }) ∷ [];
  draining = (1, record { running = record { stop_requested = true }; release = true }) ∷ [];
  readers = 0 ∷ 1 ∷ [];
  store = ("lease:0", "east") ∷ ("lease:1", "east") ∷ [];
}

stop-Free_example :
    let s' = stop memory east (λ s. true) (λ s. true) (1 ∷ []) busy in
    (s'.consumers ≡ [])
    × (s'.draining ≡ [])
    × ((shard : ℕ)
        → true ≡ true
        → In shard (keys busy.consumers ++ keys busy.draining)
        → Free memory east shard s'.store)
stop-Free_example = stop-Free memory east memory-Documented (λ s. true) (λ s. true) (1 ∷ []) busy

-- In the end nobody reads the shard.
taken_up : (happen_all memory east 1 0 shift (new_service [])).readers ≡ []
unfolding program happen_all new_service happen reap_finished begin_drain_all begin_drain pick_up
    start_consumer finish_drain remove_one renew_leases renew_all release_quietly order_from acquire
    renew release reconcile_shards lose_all get ℕ_discrete
taken_up = refl

-- A task that outlives its drain, and the shard taken again: two tasks read it.
abbrev hung : List Event
hung =
    reconciles (λ s. false) (some 1) (λ s. true)
    ∷ reconciles (λ s. true) none (λ s. true)
    ∷ drained (λ s. true) false 0
    ∷ reconciles (λ s. false) (some 1) (λ s. true)
    ∷ []

read_twice : (happen_all memory east 1 0 hung (new_service [])).readers ≡ 0 ∷ 0 ∷ []
unfolding program happen_all new_service happen reap_finished begin_drain_all begin_drain pick_up
    start_consumer finish_drain remove_one renew_leases renew_all release_quietly order_from acquire
    renew release reconcile_shards lose_all get ℕ_discrete
read_twice = refl

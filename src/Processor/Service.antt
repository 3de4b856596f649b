-- ===== src/Processor/Service.antt =====
-- src/geotrack/processor/service.py: which shards a replica reads. The tasks of its consumers are
-- the shards that have one: a task is there until the service has seen its end, and one that the
-- service forgets while it still runs is there for good. Redis is a parameter; `up` tells for which shards it answers, where the code would see a `RedisError`.
pub mod Candidates
pub mod Steps
pub mod OneReader
pub mod Stopped
use Prim.Native.String.{String}
use geotrack.Prelude.{
  ℕ, zero, suc, ◌+◌, ◌-◌, ◌≡◌, Bool, true, false, not, List, [], ◌∷◌, ◌++◌, length, select, map,
  Option, none, some, if◌then◌else◌, ltb, leb, ◌==◌, ite, ℕ_discrete,
}
use geotrack.Prelude.Dict.{Dict, get, put, pop}
use geotrack.Prelude.Int.{ℤ, pos, ◌≤ℤ◌}
use geotrack.Processor.Leases.{RebalancePlan, fair_share_plan}
use geotrack.Processor.Leases.Manager.{Redis, Manager, acquire, renew, release}

-- `_Running`, by what the service does to its consumer
pub record Running : Type 0 where
  pub stop_requested : Bool

-- `_Draining`
pub record Draining : Type 0 where
  pub running : Running
  pub release : Bool

pub record Service (S : Type 0) : Type 0 where
  pub consumers : Dict ℕ Running
  pub draining : Dict ℕ Draining
  -- the shards of the consumer tasks that were not seen to end
  pub readers : List ℕ
  pub store : S

-- the keys of a dict, in their order
abbrev pub keys : {V : Type 0} → Dict ℕ V → List ℕ
keys [] = []
keys ((k, v) ∷ d) = k ∷ keys d

-- One task of a shard has ended.
unfoldable pub remove_one : ℕ → List ℕ → List ℕ
remove_one i [] = []
remove_one i (j ∷ js) = let rest = remove_one i js in if i == j then js else j ∷ rest

module _ {S : Type 0} where
  unfoldable pub new_service : S → Service S
  new_service store = record { consumers = []; draining = []; readers = []; store = store }

  abbrev pub drained_from : Option Running → ℕ → Bool → Service S → Service S
  drained_from none shard rel s = s
  drained_from (some running) shard rel s = record s {
    consumers = pop ℕ_discrete shard s.consumers;
    draining =
        put ℕ_discrete shard (record { running = record { stop_requested = true }; release = rel })
          s.draining;
  }

  unfoldable pub begin_drain : ℕ → Bool → Service S → Service S
  begin_drain shard rel s = drained_from (get ℕ_discrete shard s.consumers) shard rel s

  unfoldable pub begin_drain_all : List ℕ → Bool → Service S → Service S
  begin_drain_all [] rel s = s
  begin_drain_all (shard ∷ shards) rel s = begin_drain_all shards rel (begin_drain shard rel s)

  -- `_reap_finished_consumers`; `done` tells of which shards the task has ended
  unfoldable pub reap_finished : (ℕ → Bool) → Service S → Service S
  unfolding begin_drain_all
  reap_finished done s = begin_drain_all (select done (keys s.consumers)) true s

  unfoldable pub start_consumer : ℕ → Service S → Service S
  start_consumer shard s = record s {
    consumers = put ℕ_discrete shard (record { stop_requested = false }) s.consumers;
    readers = s.readers ++ (shard ∷ []);
  }

  abbrev pub is_draining : ℕ → Service S → Bool
  is_draining shard s = elim (get ℕ_discrete shard s.draining) [ none ↦ false | some d ↦ true ]

  module _ (redis : Redis S) (m : Manager) where
    -- The loop over the candidates, and whether it ended without a `RedisError`.
    unfoldable pub pick_up : ℕ → (ℕ → Bool) → List ℕ → Service S → Bool × Service S
    unfolding start_consumer
    pick_up target up [] s = (true, s)
    pick_up target up (shard ∷ shards) s =
        let (store, got) = acquire redis m shard s.store in
        let s' = record s { store = store } in
        let skipped = pick_up target up shards s in
        let missed = pick_up target up shards s' in
        let taken = pick_up target up shards (start_consumer shard s') in
        if leb target (length s.consumers)
        then (true, s)
        else if is_draining shard s
        then skipped
        else if up shard
        then (if got then taken else missed)
        else (false, s)

    -- `reconcile_shards`, with the number of live replicas that the heartbeat saw, if Redis answers
    unfoldable pub reconcile_shards :
        ℕ → ℕ → (ℕ → Bool) → Option ℕ → (ℕ → Bool) → Service S → Bool × Service S
    unfolding reap_finished begin_drain_all pick_up
    reconcile_shards shards offset done none up s = (false, reap_finished done s)
    reconcile_shards shards offset done (some live) up s =
        let s1 = reap_finished done s in
        let plan = fair_share_plan shards (keys s1.consumers) live offset in
        pick_up plan.target up plan.candidates (begin_drain_all plan.release true s1)

    -- the shards that `renew_leases` renews
    abbrev pub to_renew : Service S → List ℕ
    to_renew s = keys s.consumers ++ keys (select (λ (e : ℕ × Draining). e.1.release) s.draining)

    -- The renewals, and the shards whose lease was lost; `none` for a `RedisError`.
    unfoldable pub renew_all : (ℕ → Bool) → List ℕ → S → S × Option (List ℕ)
    renew_all up [] store = (store, some [])
    renew_all up (shard ∷ shards) store =
        let (store', held) = renew redis m shard store in
        let (last, lost) = renew_all up shards (if up shard then store' else store) in
        (
          last,
          elim lost [
            | none ↦ none
            | some rest ↦ if up shard then some (if held then rest else shard ∷ rest) else none
          ],
        )

    -- `draining.release = False`, or `_begin_drain(shard, release=False)`
    abbrev pub lose_from : Option Draining → ℕ → Service S → Service S
    lose_from (some d) shard s = record s {
      draining = put ℕ_discrete shard (record d { release = false }) s.draining;
    }
    lose_from none shard s = begin_drain shard false s

    unfoldable pub lose : ℕ → Service S → Service S
    lose shard s = lose_from (get ℕ_discrete shard s.draining) shard s

    unfoldable pub lose_all : List ℕ → Service S → Service S
    unfolding lose
    lose_all [] s = s
    lose_all (shard ∷ shards) s = lose_all shards (lose shard s)

    abbrev pub after_renewal : S × Option (List ℕ) → Service S → Bool × Service S
    after_renewal (store, none) s = (false, record s { store = store })
    after_renewal (store, some lost) s = (true, lose_all lost (record s { store = store }))

    -- `renew_leases`, and whether it ended without a `RedisError`
    unfoldable pub renew_leases : (ℕ → Bool) → Service S → Bool × Service S
    unfolding renew_all lose_all
    renew_leases up s = after_renewal (renew_all up (to_renew s) s.store) s

    unfoldable pub release_quietly : (ℕ → Bool) → ℕ → Service S → Service S
    release_quietly up shard s = record s {
      store = if up shard then release redis m shard s.store else s.store;
    }

    abbrev pub finished_from : Option Draining → (ℕ → Bool) → Bool → ℕ → Service S → Service S
    finished_from none up ended shard s = s
    finished_from (some d) up ended shard s =
        let popped = record s {
          draining = pop ℕ_discrete shard s.draining;
          readers = if ended then remove_one shard s.readers else s.readers;
        } in
        if d.release then release_quietly up shard popped else popped

    -- The end of `_drain`, and whether the consumer's task has ended: a task that outlives
    -- `CANCEL_GRACE_S` runs on. A shard that is not draining has no such end.
    unfoldable pub finish_drain : (ℕ → Bool) → Bool → ℕ → Service S → Service S
    unfolding remove_one release_quietly
    finish_drain up ended shard s = finished_from (get ℕ_discrete shard s.draining) up ended shard s

    unfoldable pub finish_all : (ℕ → Bool) → (ℕ → Bool) → List ℕ → Service S → Service S
    unfolding finish_drain
    finish_all up ended [] s = s
    finish_all up ended (shard ∷ shards) s =
        finish_all up ended shards (finish_drain up (ended shard) shard s)

    unfoldable pub release_all : (ℕ → Bool) → List ℕ → Service S → Service S
    unfolding release_quietly
    release_all up [] s = s
    release_all up (shard ∷ shards) s = release_all up shards (release_quietly up shard s)

    -- `stop`, with the shards whose drain ends within the time for it, and for which of them the
    -- task has ended. The other drains are cut short: their tasks are cancelled, and not waited for.
    unfoldable pub stop : (ℕ → Bool) → (ℕ → Bool) → List ℕ → Service S → Service S
    unfolding begin_drain_all finish_all release_all
    stop up ended in_time s =
        let held = keys s.consumers ++ keys s.draining in
        let s1 = finish_all up ended in_time (begin_drain_all (keys s.consumers) true s) in
        release_all up held (record s1 { draining = [] })

-- What happens to a replica: a round of the control loop, a round of renewals, the end of a drain,
-- by then with the consumer's task ended or not.
pub data Event : Type 0 where
  reconciles : (ℕ → Bool) → Option ℕ → (ℕ → Bool) → Event
  renews : (ℕ → Bool) → Event
  drained : (ℕ → Bool) → Bool → ℕ → Event

module _ {S : Type 0} (redis : Redis S) (m : Manager) (shards offset : ℕ) where
  unfoldable pub happen : Event → Service S → Service S
  unfolding reconcile_shards renew_leases finish_drain
  happen (reconciles done live up) s = (reconcile_shards redis m shards offset done live up s).1
  happen (renews up) s = (renew_leases redis m up s).1
  happen (drained up ended shard) s = finish_drain redis m up ended shard s

  unfoldable pub happen_all : List Event → Service S → Service S
  unfolding happen
  happen_all [] s = s
  happen_all (e ∷ es) s = happen_all es (happen e s)

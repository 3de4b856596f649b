-- ===== src/Processor/Service/OneReader.antt =====
-- A shard is read by one consumer of a replica at most, but for tasks that outlive their drain.
use geotrack.Prelude.{
  ℕ, ◌+◌, ◌≤◌, ◌<◌, Bool, true, false, List, [], ◌∷◌, length, select, Option, none, some, leb,
  arith, times, Bool-cases, inl, inr,
}
use geotrack.Prelude.Dict.{get}
use geotrack.Processor.Leases.{fair_share_plan}
use geotrack.Processor.Leases.Ring.{fair_share_plan-candidates}
use geotrack.Processor.Leases.Manager.{Redis, Manager, acquire}
use geotrack.Processor.Service.{
  Service, keys, new_service, begin_drain_all, reap_finished, start_consumer, is_draining, pick_up,
  reconcile_shards, to_renew, renew_all, renew_leases, Event, reconciles, renews, drained, happen,
  happen_all,
}
use geotrack.Processor.Service.Candidates.{Fresh, Fresh-put, Fresh-of, not_owned}
use geotrack.Processor.Service.Steps.{
  OneReader, outlives, is_draining-get, begin_drain_all-OneReader, begin_drain_all-none,
  start_consumer-OneReader, after_renewal-OneReader, finish_drain-OneReader,
}

-- the task that an event leaves running
abbrev left_by : Event → ℕ → ℕ
left_by (drained up ended shard) i = outlives ended shard i
left_by _ i = 0

-- how many tasks of a shard have outlived their drain
abbrev pub outlived : List Event → ℕ → ℕ
outlived [] i = 0
outlived (e ∷ es) i = left_by e i + outlived es i

no_more : {S : Type 0} {n : ℕ → ℕ} {s : Service S} → OneReader n s → OneReader (λ i. n i + 0) s
no_more h = record { each = λ i. ground (arith, h.each i) }

module _ {S : Type 0} {n : ℕ → ℕ} where
  module _ (redis : Redis S) (m : Manager) where
    pick_up-OneReader :
        (target : ℕ) (up : ℕ → Bool) (cs : List ℕ) (s : Service S)
        → OneReader n s
        → Fresh cs s.consumers
        → OneReader n (pick_up redis m target up cs s).1
    unfolding pick_up
    pick_up-OneReader target up [] s h f = h
    pick_up-OneReader target up (c ∷ cs) s h f =
        let (store, got) = acquire redis m c s.store in
        let s' = record s { store = store } in
        elim (Bool-cases (leb target (length s.consumers))) [
          | inl enough ↦ rw enough h
          | inr fewer ↦ rw fewer (elim (Bool-cases (is_draining c s)) [
            | inl busy ↦ rw busy (pick_up-OneReader target up cs s h f.2)
            | inr free ↦ rw free (elim (Bool-cases (up c)) [
              | inr down ↦ rw down h
              | inl answers ↦ rw answers (elim (Bool-cases got) [
                | inr refused ↦
                    rw refused (pick_up-OneReader target up cs s' record { each = h.each } f.2)
                | inl granted ↦ rw granted (
                    pick_up-OneReader target up cs (start_consumer c s')
                      (start_consumer-OneReader c s' f.1 (is_draining-get c s free)
                        record { each = h.each })
                      (unfold start_consumer in
                        Fresh-put c (record { stop_requested = false }) cs s.consumers f.0 f.2))
              ])
            ])
          ])
        ]

    reconcile_shards-OneReader :
        (shards offset : ℕ) (done : ℕ → Bool) (live : Option ℕ) (up : ℕ → Bool) (s : Service S)
        → OneReader n s
        → OneReader n (reconcile_shards redis m shards offset done live up s).1
    unfolding reconcile_shards reap_finished
    reconcile_shards-OneReader shards offset done none up s h =
        begin_drain_all-OneReader (select done (keys s.consumers)) true s h
    reconcile_shards-OneReader shards offset done (some live) up s h =
        let s1 = begin_drain_all (select done (keys s.consumers)) true s in
        let h1 = begin_drain_all-OneReader (select done (keys s.consumers)) true s h in
        let plan = fair_share_plan shards (keys s1.consumers) live offset in
        let s2 = begin_drain_all plan.release true s1 in
        let h2 = begin_drain_all-OneReader plan.release true s1 h1 in
        let offered = fair_share_plan-candidates shards (keys s1.consumers) live offset in
        let free = λ (i : ℕ) (p : 0 < times i plan.candidates).
          begin_drain_all-none i plan.release true s1
            (not_owned i s1.consumers (times i plan.candidates) (offered i).1 p) in
        pick_up-OneReader plan.target up plan.candidates s2 h2
          (Fresh-of plan.candidates s2.consumers (λ i. (offered i).0) free)

module _ {S : Type 0} (redis : Redis S) (m : Manager) where
  happen-OneReader :
      {n : ℕ → ℕ} (shards offset : ℕ) (e : Event) (s : Service S)
      → OneReader n s
      → OneReader (λ i. n i + left_by e i) (happen redis m shards offset e s)
  unfolding happen renew_leases
  happen-OneReader shards offset (reconciles done live up) s h =
      no_more (reconcile_shards-OneReader redis m shards offset done live up s h)
  happen-OneReader shards offset (renews up) s h =
      no_more
        (after_renewal-OneReader redis m (renew_all redis m up (to_renew redis m s) s.store) s h)
  happen-OneReader shards offset (drained up ended shard) s h =
      finish_drain-OneReader redis m up ended shard s h

  happen_all-OneReader :
      {n : ℕ → ℕ} (total : ℕ → ℕ) (shards offset : ℕ) (es : List Event) (s : Service S)
      → OneReader n s
      → ((i : ℕ) → n i + outlived es i ≤ total i)
      → OneReader total (happen_all redis m shards offset es s)
  unfolding happen_all
  happen_all-OneReader total shards offset [] s h most = record {
    each = λ i. ground (arith, h.each i, most i);
  }
  happen_all-OneReader {n} total shards offset (e ∷ es) s h most =
      happen_all-OneReader {n = λ i. n i + left_by e i} total shards offset es
        (happen redis m shards offset e s) (happen-OneReader shards offset e s h)
        (λ i. ground (arith, most i))

  -- Whatever rounds, renewals and ends of drains a replica has been through since its start, and
  -- whatever Redis answered, a shard stands at most once among its consumers and its draining ones
  -- together; it has a consumer task for that, and besides no more tasks than those that were still
  -- running at the end of their drain. So it has one task at most as long as none was.
  pub new_service-OneReader :
      (shards offset : ℕ) (es : List Event) (store : S)
      → OneReader (outlived es) (happen_all redis m shards offset es (new_service store))
  unfolding new_service get
  new_service-OneReader shards offset es store =
      happen_all-OneReader {n = λ i. 0} (outlived es) shards offset es (new_service store)
        record { each = λ i. (omega arith, omega arith, omega arith) } (λ i. omega arith)

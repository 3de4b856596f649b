-- ===== src/Processor/Service/Steps.antt =====
-- A shard is read by one consumer of a replica at most, but for tasks that outlive their drain:
-- every operation but the round of the control loop keeps it so.
use geotrack.Prelude.{
  ℕ, ◌+◌, ◌-◌, ◌≤◌, ◌≡◌, Bool, true, false, List, [], ◌∷◌, Option, none, some, if◌then◌else◌, ite,
  ℕ_discrete, arith, times, times-append, Bool-cases, Option-cases, inl, inr,
}
use geotrack.Prelude.Dict.{Dict, get, put, pop, get-put, get-pop}
use geotrack.Processor.Leases.Manager.{Redis, Manager}
use geotrack.Processor.Service.{
  Running, Draining, Service, remove_one, begin_drain, begin_drain_all, start_consumer, is_draining,
  lose, lose_all, after_renewal, finish_drain,
}

-- whether a dict has a key, as a number
abbrev pub has : {V : Type 0} → ℕ → Dict ℕ V → ℕ
has i d = elim (get ℕ_discrete i d) [ none ↦ 0 | some v ↦ 1 ]

module _ {V : Type 0} where
  has-put :
      (k i : ℕ) (v : V) (d : Dict ℕ V)
      → has i (put ℕ_discrete k v d) ≡ ite (ℕ_discrete k i) 1 (has i d)
  has-put k i v d = ground (arith, get-put ℕ_discrete k i v d)

  has-pop : (k i : ℕ) (d : Dict ℕ V) → has i (pop ℕ_discrete k d) ≡ ite (ℕ_discrete k i) 0 (has i d)
  has-pop k i d = ground (arith, get-pop ℕ_discrete k i d)

times-remove_one :
    (k i : ℕ) (js : List ℕ) → times i (remove_one k js) ≡ times i js - ite (ℕ_discrete k i) 1 0
unfolding remove_one
times-remove_one k i [] = ground arith
times-remove_one k i (j ∷ js) = ground (arith, times-remove_one k i js)

-- Each shard has one record at most, a consumer task for it, and besides that task no more than
-- the number of those that outlived their drain.
pub record OneReader {S : Type 0} (outlived : ℕ → ℕ) (s : Service S) : Type 0 where
  pub each :
      (i : ℕ)
      → let records = has i s.consumers + has i s.draining in
        (records ≤ 1) × (records ≤ times i s.readers) × (times i s.readers ≤ records + outlived i)

-- the task that the end of a drain leaves running
abbrev pub outlives : Bool → ℕ → ℕ → ℕ
outlives ended shard i = if ended then 0 else ite (ℕ_discrete shard i) 1 0

pub is_draining-get :
    {S : Type 0} (shard : ℕ) (s : Service S)
    → is_draining shard s ≡ false
    → get ℕ_discrete shard s.draining ≡ none
is_draining-get shard s h = elim (Option-cases (get ℕ_discrete shard s.draining)) [
  | inl none_there ↦ none_there
  | inr (d, hit) ↦ absurd (ground (arith, hit))
]

module _ {S : Type 0} where
  begin_drain-none :
      (c shard : ℕ) (rel : Bool) (s : Service S)
      → get ℕ_discrete c s.consumers ≡ none
      → get ℕ_discrete c (begin_drain shard rel s).consumers ≡ none
  unfolding begin_drain
  begin_drain-none c shard rel s h = elim (Option-cases (get ℕ_discrete shard s.consumers)) [
    | inl miss ↦ rw miss h
    | inr (running, hit) ↦ rw hit (ground (arith, h, get-pop ℕ_discrete shard c s.consumers))
  ]

  pub begin_drain_all-none :
      (c : ℕ) (shards : List ℕ) (rel : Bool) (s : Service S)
      → get ℕ_discrete c s.consumers ≡ none
      → get ℕ_discrete c (begin_drain_all shards rel s).consumers ≡ none
  unfolding begin_drain_all
  begin_drain_all-none c [] rel s h = h
  begin_drain_all-none c (shard ∷ shards) rel s h =
      begin_drain_all-none c shards rel (begin_drain shard rel s) (begin_drain-none c shard rel s h)

module _ {S : Type 0} {n : ℕ → ℕ} where
  begin_drain-OneReader :
      (shard : ℕ) (rel : Bool) (s : Service S)
      → OneReader n s
      → OneReader n (begin_drain shard rel s)
  unfolding begin_drain
  begin_drain-OneReader shard rel s h = elim (Option-cases (get ℕ_discrete shard s.consumers)) [
    | inl miss ↦ rw miss h
    | inr (running, hit) ↦
        let d : Draining = record { running = record { stop_requested = true }; release = rel } in
        rw hit record {
          each = λ i.
              ground
                (arith, h.each i, hit, has-pop shard i s.consumers, has-put shard i d s.draining);
        }
  ]

  pub begin_drain_all-OneReader :
      (shards : List ℕ) (rel : Bool) (s : Service S)
      → OneReader n s
      → OneReader n (begin_drain_all shards rel s)
  unfolding begin_drain_all
  begin_drain_all-OneReader [] rel s h = h
  begin_drain_all-OneReader (shard ∷ shards) rel s h =
      begin_drain_all-OneReader shards rel (begin_drain shard rel s)
        (begin_drain-OneReader shard rel s h)

  -- A shard with no record may be given a consumer.
  pub start_consumer-OneReader :
      (shard : ℕ) (s : Service S)
      → get ℕ_discrete shard s.consumers ≡ none
      → get ℕ_discrete shard s.draining ≡ none
      → OneReader n s
      → OneReader n (start_consumer shard s)
  unfolding start_consumer
  start_consumer-OneReader shard s c d h =
      let running : Running = record { stop_requested = false } in
      record {
        each = λ i. ground (
          arith,
          h.each i,
          c,
          d,
          times-append i s.readers (shard ∷ []),
          has-put shard i running s.consumers,
        );
      }

  -- A drained shard has its record no more, and its task no more if that has ended.
  popped :
      (ended : Bool) (shard : ℕ) (s : Service S)
      → OneReader n s
      → (d : Draining) → get ℕ_discrete shard s.draining ≡ some d
      → (i : ℕ)
      → let readers = if ended then remove_one shard s.readers else s.readers in
        let records = has i s.consumers + has i (pop ℕ_discrete shard s.draining) in
        (records ≤ 1)
        × (records ≤ times i readers)
        × (times i readers ≤ records + (n i + outlives ended shard i))
  popped true shard s h d hit i =
      ground (arith, h.each i, hit, times-remove_one shard i s.readers, has-pop shard i s.draining)
  popped false shard s h d hit i = ground (arith, h.each i, hit, has-pop shard i s.draining)

  module _ (redis : Redis S) (m : Manager) where
    lose-OneReader :
        (shard : ℕ) (s : Service S) → OneReader n s → OneReader n (lose redis m shard s)
    unfolding lose
    lose-OneReader shard s h = elim (Option-cases (get ℕ_discrete shard s.draining)) [
      | inl miss ↦ rw miss (begin_drain-OneReader shard false s h)
      | inr (d, hit) ↦
          let d' : Draining = record d { release = false } in
          rw hit record { each = λ i. ground (arith, h.each i, hit, has-put shard i d' s.draining) }
    ]

    lose_all-OneReader :
        (shards : List ℕ) (s : Service S) → OneReader n s → OneReader n (lose_all redis m shards s)
    unfolding lose_all
    lose_all-OneReader [] s h = h
    lose_all-OneReader (shard ∷ shards) s h =
        lose_all-OneReader shards (lose redis m shard s) (lose-OneReader shard s h)

    pub after_renewal-OneReader :
        (r : S × Option (List ℕ)) (s : Service S)
        → OneReader n s
        → OneReader n (after_renewal redis m r s).1
    after_renewal-OneReader (store, none) s h = record { each = h.each }
    after_renewal-OneReader (store, some lost) s h =
        lose_all-OneReader lost (record s { store = store }) record { each = h.each }

    pub finish_drain-OneReader :
        (up : ℕ → Bool) (ended : Bool) (shard : ℕ) (s : Service S)
        → OneReader n s
        → OneReader (λ i. n i + outlives ended shard i) (finish_drain redis m up ended shard s)
    unfolding finish_drain
    finish_drain-OneReader up ended shard s h =
        elim (Option-cases (get ℕ_discrete shard s.draining)) [
          | inl miss ↦ rw miss record { each = λ i. ground (arith, h.each i) }
          | inr (d, hit) ↦ rw hit (elim (Bool-cases d.release) [
            | inl ours ↦ rw ours record { each = popped ended shard s h d hit }
            | inr lost ↦ rw lost record { each = popped ended shard s h d hit }
          ])
        ]

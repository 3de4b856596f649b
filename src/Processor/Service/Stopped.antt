-- ===== src/Processor/Service/Stopped.antt =====
-- A replica that has stopped keeps no record of a shard and owns none.
use geotrack.Prelude.{
  ℕ, ◌≡◌, ◌≢◌, refl, Bool, true, List, [], ◌∷◌, ◌++◌, none, some, if◌then◌else◌, ℕ_discrete, arith,
  Bool-cases, Option-cases, inl, inr, In, here, there, ◌∙◌,
}
use geotrack.Prelude.Dict.{Dict, get, get-pop}
use geotrack.Prelude.Text.{String-discrete as same_text}
use geotrack.Processor.Leases.Manager.{Redis, Documented, Manager, release}
use geotrack.Processor.Leases.Owner.{lease-life}
use geotrack.Processor.Service.Steps.{begin_drain_all-none}
use geotrack.Processor.Service.{
  Service, keys, begin_drain, begin_drain_all, finish_drain, finish_all, release_quietly,
  release_all, stop,
}

emptied : {V : Type 0} (d : Dict ℕ V) → ((i : ℕ) → get ℕ_discrete i d ≡ none) → d ≡ []
unfolding get
emptied [] h = refl
emptied ((k, v) ∷ d) h = absurd (ground (arith, h k))

In-keys : {V : Type 0} (i : ℕ) (v : V) (d : Dict ℕ V) → get ℕ_discrete i d ≡ some v → In i (keys d)
unfolding get
In-keys i v [] h = cc
In-keys i v ((k, w) ∷ d) h = elim (ℕ_discrete k i) [
  | yes p ↦ rw p here
  | no p ↦ there (In-keys i v d (ground (arith, p)))
]

module _ {S : Type 0} where
  begin_drain-gone :
      (shard : ℕ) (rel : Bool) (s : Service S)
      → get ℕ_discrete shard (begin_drain shard rel s).consumers ≡ none
  unfolding begin_drain
  begin_drain-gone shard rel s = elim (Option-cases (get ℕ_discrete shard s.consumers)) [
    | inl miss ↦ rw miss miss
    | inr (running, hit) ↦ rw hit (ground (arith, get-pop ℕ_discrete shard shard s.consumers))
  ]

  begin_drain_all-gone :
      (i : ℕ) (shards : List ℕ) (rel : Bool) (s : Service S)
      → In i shards
      → get ℕ_discrete i (begin_drain_all shards rel s).consumers ≡ none
  unfolding begin_drain_all
  begin_drain_all-gone i [] rel s m = elim m [ ]
  begin_drain_all-gone i (shard ∷ shards) rel s here =
      begin_drain_all-none i shards rel (begin_drain i rel s) (begin_drain-gone i rel s)
  begin_drain_all-gone i (shard ∷ shards) rel s (there m) =
      begin_drain_all-gone i shards rel (begin_drain shard rel s) m

  -- Draining every consumer leaves none.
  begin_drain_all-consumers :
      (rel : Bool) (s : Service S) → (begin_drain_all (keys s.consumers) rel s).consumers ≡ []
  begin_drain_all-consumers rel s =
      emptied (begin_drain_all (keys s.consumers) rel s).consumers (λ i.
        elim (Option-cases (get ℕ_discrete i s.consumers)) [
          | inl miss ↦ begin_drain_all-none i (keys s.consumers) rel s miss
          | inr (v, hit) ↦
              begin_drain_all-gone i (keys s.consumers) rel s (In-keys i v s.consumers hit)
        ])

  module _ (redis : Redis S) (m : Manager) where
    finish_drain-consumers :
        (up : ℕ → Bool) (ended : Bool) (shard : ℕ) (s : Service S)
        → (finish_drain redis m up ended shard s).consumers ≡ s.consumers
    unfolding finish_drain
    finish_drain-consumers up ended shard s =
        elim (Option-cases (get ℕ_discrete shard s.draining)) [
          | inl miss ↦ rw miss refl
          | inr (d, hit) ↦
              rw hit
                (elim (Bool-cases d.release) [ inl ours ↦ rw ours refl | inr lost ↦ rw lost refl ])
        ]

    finish_all-consumers :
        (up ended : ℕ → Bool) (shards : List ℕ) (s : Service S)
        → (finish_all redis m up ended shards s).consumers ≡ s.consumers
    unfolding finish_all
    finish_all-consumers up ended [] s = refl
    finish_all-consumers up ended (shard ∷ shards) s =
        finish_all-consumers up ended shards (finish_drain redis m up (ended shard) shard s)
        ∙ finish_drain-consumers up (ended shard) shard s

    -- the lease of a shard is not the replica's
    abbrev pub Free : ℕ → S → Type 0
    Free shard store = redis.get (m.lease_key shard) store ≢ some m.instance_id

    module _ (laws : Documented redis) where
      release-Free : (shard : ℕ) (store : S) → Free shard (release redis m shard store)
      release-Free shard store e =
          let life = (lease-life redis laws m shard store).4 in
          elim (Option-cases (redis.get (m.lease_key shard) store)) [
            | inl free ↦ absurd (ground (arith, e, life, free))
            | inr (v, held) ↦ elim (same_text m.instance_id v) [
              | yes p ↦ absurd (ground (arith, e, life, held, p))
              | no p ↦ p (ground (arith, e, life, held, p))
            ]
          ]

      release-keeps :
          (shard other : ℕ) (store : S)
          → Free shard store
          → Free shard (release redis m other store)
      release-keeps shard other store h = elim (same_text (m.lease_key other) (m.lease_key shard)) [
        | yes p ↦ λ e. release-Free other store (rw p e)
        | no p ↦
            let deleted = laws.del-other (m.lease_key other) (m.lease_key shard) store p in
            λ e. h (unfold release in ground (arith, deleted, e))
      ]

      release_quietly-keeps :
          (up : ℕ → Bool) (shard other : ℕ) (s : Service S)
          → Free shard s.store
          → Free shard (release_quietly redis m up other s).store
      unfolding release_quietly
      release_quietly-keeps up shard other s h = elim (Bool-cases (up other)) [
        | inl answers ↦ λ e. release-keeps shard other s.store h (ground (arith, answers, e))
        | inr down ↦ λ e. h (ground (arith, down, e))
      ]

      release_quietly-Free :
          (up : ℕ → Bool) (shard : ℕ) (s : Service S)
          → up shard ≡ true
          → Free shard (release_quietly redis m up shard s).store
      unfolding release_quietly
      release_quietly-Free up shard s u e = release-Free shard s.store (ground (arith, u, e))

      release_all-keeps :
          (up : ℕ → Bool) (shards : List ℕ) (shard : ℕ) (s : Service S)
          → Free shard s.store
          → Free shard (release_all redis m up shards s).store
      unfolding release_all release_quietly
      release_all-keeps up [] shard s h = h
      release_all-keeps up (other ∷ shards) shard s h =
          release_all-keeps up shards shard (release_quietly redis m up other s)
            (release_quietly-keeps up shard other s h)

      release_all-Free :
          (up : ℕ → Bool) (shards : List ℕ) (shard : ℕ) (s : Service S)
          → up shard ≡ true
          → In shard shards
          → Free shard (release_all redis m up shards s).store
      unfolding release_all release_quietly
      release_all-Free up [] shard s u n = elim n [ ]
      release_all-Free up (other ∷ shards) shard s u here =
          release_all-keeps up shards shard (release_quietly redis m up shard s)
            (release_quietly-Free up shard s u)
      release_all-Free up (other ∷ shards) shard s u (there n) =
          release_all-Free up shards shard (release_quietly redis m up other s) u n

      release_all-same :
          (up : ℕ → Bool) (shards : List ℕ) (s : Service S)
          → let s' = release_all redis m up shards s in
            (s'.consumers ≡ s.consumers) × (s'.draining ≡ s.draining)
      unfolding release_all release_quietly
      release_all-same up [] s = (refl, refl)
      release_all-same up (shard ∷ shards) s =
          release_all-same up shards
            (record s { store = if up shard then release redis m shard s.store else s.store })

      -- A replica that has stopped, whichever drains ended in time and whichever tasks with them,
      -- has no record of a consumer or of a shard that drains; and of the shards that it consumed
      -- or drained, each for which Redis answered is not leased to it any more, if Redis does as
      -- documented.
      pub stop-Free :
          (up ended : ℕ → Bool) (in_time : List ℕ) (s : Service S)
          → let s' = stop redis m up ended in_time s in
            (s'.consumers ≡ [])
            × (s'.draining ≡ [])
            × ((shard : ℕ)
                → up shard ≡ true
                → In shard (keys s.consumers ++ keys s.draining)
                → Free shard s'.store)
      unfolding stop
      stop-Free up ended in_time s =
          let held = keys s.consumers ++ keys s.draining in
          let s1 = begin_drain_all (keys s.consumers) true s in
          let s2 = finish_all redis m up ended in_time s1 in
          let s3 = record s2 { draining = [] } in
          let same = release_all-same up held s3 in
          (
            same.0 ∙ finish_all-consumers up ended in_time s1 ∙ begin_drain_all-consumers true s,
            same.1,
            λ shard u n. release_all-Free up held shard s3 u n,
          )

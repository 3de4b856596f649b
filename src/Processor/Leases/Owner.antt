-- ===== src/Processor/Leases/Owner.antt =====
-- Nobody but its owner changes a lease that lives.
use Prim.Native.String.{String}
use geotrack.Prelude.{
  ℕ, ◌≡◌, ◌≢◌, Bool, true, false, List, [], ◌∷◌, Option, none, some, if◌then◌else◌, arith, inl, inr,
  Option-cases,
}
use geotrack.Prelude.Text.{String-discrete as same_text}
use geotrack.Processor.Leases.Manager.{
  Redis, Documented, Manager, owned_by, acquire, renew, release,
}

pub data Operation : Type 0 where
  acquires renews releases : ℕ → Operation

abbrev pub is_free : Option String → Bool
is_free none = true
is_free (some owner) = false

module _ {S : Type 0} (redis : Redis S) where
  pub operate : Manager → Operation → S → S
  operate m (acquires shard) s = (acquire redis m shard s).0
  operate m (renews shard) s = (renew redis m shard s).0
  operate m (releases shard) s = release redis m shard s

  pub operate_all : Manager → List Operation → S → S
  operate_all m [] s = s
  operate_all m (o ∷ os) s = operate_all m os (operate m o s)

module _ {S : Type 0} (redis : Redis S) (laws : Documented redis) where
  module _ (m : Manager) (k owner : String) (other : owner ≢ m.instance_id) where
    operate-held :
        (o : Operation) (s : S)
        → redis.get k s ≡ some owner
        → redis.get k (operate redis m o s) ≡ some owner
    unfolding operate acquire renew release
    operate-held (acquires shard) s h = elim (same_text (m.lease_key shard) k) [
      | yes p ↦
          ground
            (arith, laws.set_nx-held (m.lease_key shard) owner m.instance_id m.ttl_ms s (rw p h))
      | no p ↦ ground (arith, laws.set_nx-other (m.lease_key shard) k m.instance_id m.ttl_ms s p)
    ]
    operate-held (renews shard) s h =
        ground (arith, laws.pexpire-get (m.lease_key shard) k m.ttl_ms s)
    operate-held (releases shard) s h = elim (same_text (m.lease_key shard) k) [
      | yes p ↦ let held : redis.get (m.lease_key shard) s ≡ some owner = rw p h in ground arith
      | no p ↦ ground (arith, laws.del-other (m.lease_key shard) k s p)
    ]

    -- While a lease lives, no sequence of operations of another instance, on any shards, changes
    -- its owner.
    pub operate_all-held :
        (os : List Operation) (s : S)
        → redis.get k s ≡ some owner
        → redis.get k (operate_all redis m os s) ≡ some owner
    unfolding operate_all
    operate_all-held [] s h = h
    operate_all-held (o ∷ os) s h = operate_all-held os (operate redis m o s) (operate-held o s h)

  module _ (m : Manager) (shard : ℕ) (s : S) where
    abbrev lease : S → Option String
    lease t = redis.get (m.lease_key shard) t

    -- An instance acquires exactly the leases that nobody holds, and then owns them; it renews
    -- exactly those it owns, which changes no owner; and its release frees exactly those it owns.
    pub lease-life :
        ((acquire redis m shard s).1 ≡ is_free (lease s))
        × (lease (acquire redis m shard s).0
            ≡ (if is_free (lease s) then some m.instance_id else lease s))
        × ((renew redis m shard s).1 ≡ owned_by m.instance_id (lease s))
        × (lease (renew redis m shard s).0 ≡ lease s)
        × (lease (release redis m shard s)
            ≡ (if owned_by m.instance_id (lease s) then none else lease s))
    unfolding acquire renew release
    lease-life =
        let k = m.lease_key shard in
        let renewed = laws.pexpire-get k k m.ttl_ms s in
        let freed = laws.del-get k s in
        elim (Option-cases (lease s)) [
          | inl free ↦
              let taken = laws.set_nx-free k m.instance_id m.ttl_ms s free in
              (
                ground (arith, taken),
                ground (arith, taken),
                ground arith,
                ground (arith, renewed),
                ground (arith, freed),
              )
          | inr (v, held) ↦
              let kept = laws.set_nx-held k v m.instance_id m.ttl_ms s held in
              let renews = laws.pexpire-held k v m.ttl_ms s held in
              (
                ground (arith, kept),
                ground (arith, kept),
                ground (arith, renews),
                ground (arith, renewed),
                ground (arith, freed),
              )
        ]

-- ===== src/Processor/Leases/Manager.antt =====
-- src/geotrack/processor/leases.py: the leases of `ShardLeaseManager` and its two scripts. Redis is
-- a parameter; a lease that expires is a change of its store that no operation here makes.
use Prim.Native.String.{String}
use geotrack.Prelude.{ℕ, ◌≡◌, ◌≢◌, Bool, true, false, Option, none, some, ite, if◌then◌else◌, leb}
use geotrack.Prelude.Text.{String-discrete as same_text}

-- The commands of Redis that leases use, on a store `S`.
pub record Redis (S : Type 0) : Type 0 where
  pub get : String → S → Option String
  -- `SET key value NX PX ttl`, and whether it was set
  pub set_nx : String → String → ℕ → S → S × Bool
  -- `PEXPIRE key ttl` and `DEL key`, with their replies
  pub pexpire : String → ℕ → S → S × ℕ
  pub del : String → S → S × ℕ

-- What the documentation of Redis says of them.
pub record Documented {S : Type 0} (redis : Redis S) : Type 0 where
  pub set_nx-held :
      (k v w : String) (ttl : ℕ) (s : S)
      → redis.get k s ≡ some v
      → redis.set_nx k w ttl s ≡ (s, false)
  pub set_nx-free :
      (k w : String) (ttl : ℕ) (s : S)
      → redis.get k s ≡ none
      → (redis.get k (redis.set_nx k w ttl s).0 ≡ some w) × ((redis.set_nx k w ttl s).1 ≡ true)
  pub set_nx-other :
      (k j w : String) (ttl : ℕ) (s : S)
      → k ≢ j
      → redis.get j (redis.set_nx k w ttl s).0 ≡ redis.get j s
  pub pexpire-get :
      (k j : String) (ttl : ℕ) (s : S) → redis.get j (redis.pexpire k ttl s).0 ≡ redis.get j s
  pub pexpire-held :
      (k v : String) (ttl : ℕ) (s : S) → redis.get k s ≡ some v → (redis.pexpire k ttl s).1 ≡ 1
  pub del-get : (k : String) (s : S) → redis.get k (redis.del k s).0 ≡ none
  pub del-other : (k j : String) (s : S) → k ≢ j → redis.get j (redis.del k s).0 ≡ redis.get j s

-- What a manager is made of: `lease_key` is `shard_lease_key`.
pub record Manager : Type 0 where
  pub instance_id : String
  pub ttl_ms : ℕ
  pub lease_key : ℕ → String

-- `redis.call('GET', KEYS[1]) == ARGV[1]`
abbrev pub owned_by : String → Option String → Bool
owned_by id none = false
owned_by id (some owner) = ite (same_text owner id) true false

module _ {S : Type 0} (redis : Redis S) where
  -- `RENEW_SCRIPT`
  unfoldable pub renew_script : String → String → ℕ → S → S × ℕ
  renew_script k id ttl s = if owned_by id (redis.get k s) then redis.pexpire k ttl s else (s, 0)

  -- `RELEASE_SCRIPT`
  unfoldable pub release_script : String → String → S → S × ℕ
  release_script k id s = if owned_by id (redis.get k s) then redis.del k s else (s, 0)

  module _ (m : Manager) where
    unfoldable pub acquire : ℕ → S → S × Bool
    acquire shard s = redis.set_nx (m.lease_key shard) m.instance_id m.ttl_ms s

    unfoldable pub renew : ℕ → S → S × Bool
    unfolding renew_script
    renew shard s =
        let (s', result) = renew_script (m.lease_key shard) m.instance_id m.ttl_ms s in
        (s', leb 1 result)

    unfoldable pub release : ℕ → S → S
    unfolding release_script
    release shard s = (release_script (m.lease_key shard) m.instance_id s).0

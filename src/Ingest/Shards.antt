-- ===== src/Ingest/Shards.antt =====
-- src/geotrack/ingest/shards.py: the number of shards, agreed when processes start. Redis's
-- `SET NX GET` is the function `set_nx_get`, and `str` of a number is a parameter.
pub mod Agreement
use Prim.Native.String.{String}
use text.Mathlib.Text.{◌==◌ as str_eq}
use text.Mathlib.TextEquality.{eq_iff}
use geotrack.Prelude.{
  ℕ, ◌≡◌, refl, sym, ◌∙◌, Bool, true, false, List, [], ◌∷◌, Option, none, some, if◌then◌else◌, All,
  In, here, there,
}

-- `ShardCountMismatchError`
pub data MismatchError : Type 0 where
  mismatch : ℕ → String → MismatchError

-- the key `geo:meta:shards`
abbrev pub Meta : Type 0
Meta = Option String

-- `redis.set(key, value, nx=True, get=True)`: the former value, and the key after
abbrev pub set_nx_get : String → Meta → Option String × Meta
set_nx_get value none = (none, some value)
set_nx_get value (some old) = (some old, some old)

module _ (str : ℕ → String) where
  -- the comparison of what was recorded, with what it raises
  unfoldable pub compared : ℕ → Option String → Option MismatchError
  compared shards none = none
  compared shards (some previous) =
      if str_eq previous (str shards) then none else some (mismatch shards previous)

  unfoldable pub verify_shard_count : ℕ → Meta → Option MismatchError × Meta
  unfolding compared
  verify_shard_count shards meta =
      let (recorded, after) = set_nx_get (str shards) meta in (compared shards recorded, after)

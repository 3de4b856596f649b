-- ===== src/Generator.antt =====
-- generator.py: the load generator, which plays a fleet of devices against the service. What it
-- takes from Python's `random` and `math` is a parameter.
pub mod Motion
pub mod Fleet
pub mod Batcher
pub mod Stats
pub mod Http
pub mod Socket
pub mod Settings
use Prim.Native.String.{String}
use geotrack.Prelude.{ℕ, Bool, true, false, List, [], ◌∷◌, Option, none, some, if◌then◌else◌, leb}
use geotrack.Prelude.Int.{ℤ, pos}
use geotrack.Float.{Floats}

-- `random.Random`, with the state that each call leaves
pub record Random (fl : Floats) : Type 1 where
  pub R : Type 0
  pub seeded : String → R
  pub random : R → fl.F × R
  pub uniform : fl.F → fl.F → R → fl.F × R
  pub gauss : fl.F → fl.F → R → fl.F × R
  pub randrange : ℕ → R → ℕ × R

-- the functions of `math`
pub record Math (fl : Floats) : Type 0 where
  pub sqrt : fl.F → fl.F
  pub sin : fl.F → fl.F
  pub cos : fl.F → fl.F
  pub radians : fl.F → fl.F
  pub degrees : fl.F → fl.F
  pub hypot : fl.F → fl.F → fl.F
  pub atan2 : fl.F → fl.F → fl.F

-- ===== src/Generator/Http/Run.antt =====
-- What the counters of a run say of its reports, over any events.
use geotrack.Prelude.{ℕ, ◌+◌, List, [], ◌∷◌, none, some}
use geotrack.Float.{Floats}
use geotrack.Messaging.Json.{Orjson}
use geotrack.Generator.{Random, Math}
use geotrack.Generator.Batcher.{Batcher}
use geotrack.Generator.Stats.{Reads}
use geotrack.Generator.Http.{Runner, Event, happen}
use geotrack.Generator.Http.Balance.{lost_by}

module _ (fl : Floats) (rnd : Random fl) (mt : Math fl) (round7 : fl.F → fl.F) where
  module _ (o : Orjson fl) (reads : Reads fl) where
    -- the reports that a run loses
    unfoldable pub lost : List (Event fl) → Runner fl rnd → ℕ
    unfolding happen
    lost [] r = 0
    lost (e ∷ es) r =
        lost_by fl reads e r
        + elim (happen fl rnd mt round7 o reads e r) [ none ↦ 0 | some r' ↦ lost es r' ]

-- ===== src/Generator/Settings.antt =====
-- generator.py: the settings of a run, from the command line that argparse has read, the
-- environment and the defaults. Reading a text as a number and the methods of `str` are parameters.
pub mod Valid
use Prim.Native.String.{String}
use text.Mathlib.Text.{◌==◌ as str_eq}
use geotrack.Prelude.{
  ℕ, Bool, true, false, not, ◌&&◌, ◌||◌, List, [], ◌∷◌, any, Option, none, some, if◌then◌else◌,
}
use geotrack.Prelude.Int.{ℤ, pos, negsuc, leb_ℤ, ltb_ℤ, ◌*ℤ◌}
use geotrack.Prelude.Result.{Result, ok, raise, ◌>>=◌}
use geotrack.Float.{Floats}
use geotrack.Generator.Motion.{Area, fraction}

-- `int(raw)` and `float(raw)`, with `none` for a `ValueError`; `raw.strip()`, `raw.lower()`,
-- `raw.rstrip("/")`, `raw.startswith(("http://", "https://"))` and `raw.split(",")`
pub record Texts (fl : Floats) : Type 0 where
  pub int : String → Option ℤ
  pub float : String → Option fl.F
  pub strip : String → String
  pub lower : String → String
  pub rstrip_slash : String → String
  pub is_http : String → Bool
  pub split_comma : String → List String

-- What ends the program before the run: `parser.error`, or the `ValueError` of a bad center.
pub data UsageError : Type 0 where
  bad_url bad_transport : UsageError
  not_a_number : String → UsageError
  bad_center : UsageError
  devices_low interval_low max_batch_low batch_size_low batch_size_over : UsageError
  window_negative radius_low duration_negative stats_interval_low : UsageError
  max_connections_low connections_negative no_ingest_key : UsageError

-- The namespace that `parse_args` returns.
pub record Args (fl : Floats) : Type 0 where
  pub url : Option String
  pub transport : Option String
  pub devices : Option ℤ
  pub interval : Option fl.F
  pub connections : Option ℤ
  pub max_connections : Option ℤ
  pub batch_size : Option ℤ
  pub batch_window_ms : Option ℤ
  pub max_batch : Option ℤ
  pub center : Option (fl.F × fl.F)
  pub radius_km : Option fl.F
  pub duration : Option fl.F
  pub ramp_up : Option fl.F
  pub seed : Option ℤ
  pub ingest_key : Option String
  pub device_prefix : Option String
  pub stats_interval : Option fl.F
  pub json_summary : Option String
  pub verbose : Option Bool

pub record Config (fl : Floats) : Type 0 where
  pub url : String
  pub transport : String
  pub devices : ℤ
  pub interval : fl.F
  pub connections : ℤ
  pub batch_size : ℤ
  pub batch_window_s : fl.F
  pub max_batch : ℤ
  pub area : Area fl
  pub duration : fl.F
  pub ramp_up : fl.F
  pub seed : ℤ
  pub ingest_key : String
  pub device_prefix : String
  pub stats_interval : fl.F
  pub json_summary : Option String
  pub verbose : Bool

-- the settings that are numbers, before they are checked
pub record Numbers (fl : Floats) : Type 0 where
  pub devices : ℤ
  pub interval : fl.F
  pub max_connections : ℤ
  pub batch_size : ℤ
  pub batch_window_ms : ℤ
  pub max_batch : ℤ
  pub radius_km : fl.F
  pub duration : fl.F
  pub ramp_up : fl.F
  pub seed : ℤ
  pub stats_interval : fl.F
  pub requested : ℤ

abbrev pub Environ : Type 0
Environ = String → Option String

-- `ENV_ALIASES`
unfoldable pub env_aliases : List (String × List String)
env_aliases =
    ("GEOTRACK_URL", "GENERATOR_BASE_URL" ∷ "GENERATOR_URL" ∷ [])
    ∷ ("TRANSPORT", "GENERATOR_TRANSPORT" ∷ [])
    ∷ ("DEVICES", "GENERATOR_DEVICES" ∷ [])
    ∷ ("INTERVAL", "GENERATOR_INTERVAL_S" ∷ "GENERATOR_INTERVAL" ∷ [])
    ∷ ("CONNECTIONS", "GENERATOR_CONCURRENCY" ∷ "GENERATOR_CONNECTIONS" ∷ [])
    ∷ ("MAX_CONNECTIONS", "GENERATOR_MAX_CONNECTIONS" ∷ [])
    ∷ ("BATCH_SIZE", "GENERATOR_BATCH_SIZE" ∷ [])
    ∷ ("BATCH_WINDOW_MS", "GENERATOR_BATCH_WINDOW_MS" ∷ [])
    ∷ ("MAX_BATCH", "GENERATOR_MAX_BATCH" ∷ "INGEST_MAX_BATCH" ∷ [])
    ∷ ("CENTER", "GENERATOR_CENTER" ∷ [])
    ∷ ("RADIUS_KM", "GENERATOR_RADIUS_KM" ∷ [])
    ∷ ("DURATION", "GENERATOR_DURATION_S" ∷ "GENERATOR_DURATION" ∷ [])
    ∷ ("RAMP_UP", "GENERATOR_RAMP_UP_S" ∷ "GENERATOR_RAMP_UP" ∷ [])
    ∷ ("SEED", "GENERATOR_SEED" ∷ [])
    ∷ ("DEVICE_PREFIX", "GENERATOR_DEVICE_PREFIX" ∷ [])
    ∷ ("STATS_INTERVAL", "GENERATOR_STATS_INTERVAL" ∷ [])
    ∷ ("JSON_SUMMARY", "GENERATOR_JSON_SUMMARY" ∷ [])
    ∷ ("VERBOSE", "GENERATOR_VERBOSE" ∷ [])
    ∷ []

abbrev pub aliases_in : String → List (String × List String) → List String
aliases_in key [] = []
aliases_in key ((name, others) ∷ rest) = if str_eq name key then others else aliases_in key rest

abbrev pub min_ℤ : ℤ → ℤ → ℤ
min_ℤ a b = if ltb_ℤ b a then b else a

abbrev pub max_ℤ : ℤ → ℤ → ℤ
max_ℤ a b = if ltb_ℤ a b then b else a

-- `a or b`, of texts
abbrev pub or_else : String → String → String
or_else a b = if str_eq a "" then b else a

abbrev pub given : Option String → String
given none = ""
given (some s) = s

-- `if bad: parser.error(...)`, and what follows
unfoldable pub refuse_if :
    {A : Type 0} → Bool → UsageError → Result UsageError A → Result UsageError A
refuse_if bad error next = if bad then raise error else next

module _ (fl : Floats) (texts : Texts fl) where
  open fl use {F, le, lt, mul, div, literal}

  unfoldable pub first_set : Environ → List String → String
  first_set env [] = ""
  first_set env (name ∷ names) =
      let value = texts.strip (given (env name)) in
      let rest = first_set env names in if str_eq value "" then rest else value

  unfoldable pub env_raw : Environ → String → String
  unfolding first_set env_aliases
  env_raw env key = first_set env (key ∷ aliases_in key env_aliases)

  unfoldable pub env_str : Environ → String → String → String
  unfolding env_raw
  env_str env key fallback = or_else (env_raw env key) fallback

  abbrev pub cast_or : {T : Type 0} → String → Option T → Result UsageError T
  cast_or key none = raise (not_a_number key)
  cast_or key (some n) = ok n

  unfoldable pub number :
      {T : Type 0} → Option T → Environ → String → T → (String → Option T) → Result UsageError T
  unfolding env_raw
  number (some flag) env key fallback cast = ok flag
  number none env key fallback cast =
      let raw = env_raw env key in if str_eq raw "" then ok fallback else cast_or key (cast raw)

  abbrev pub within : F × F → Bool
  within (lat, lon) =
      le (literal (negsuc 89)) lat
      && le lat (literal (pos 90))
      && le (literal (negsuc 179)) lon
      && le lon (literal (pos 180))

  abbrev pub both : Option F → Option F → Result UsageError (F × F)
  both (some lat) (some lon) = if within (lat, lon) then ok (lat, lon) else raise bad_center
  both _ _ = raise bad_center

  abbrev pub center_parts : List String → Result UsageError (F × F)
  center_parts (lat ∷ lon ∷ []) = both (texts.float lat) (texts.float lon)
  center_parts _ = raise bad_center

  unfoldable pub parse_center : String → Result UsageError (F × F)
  parse_center raw = center_parts (texts.split_comma raw)

  unfoldable pub read_numbers : Args fl → Environ → Result UsageError (Numbers fl)
  unfolding number
  read_numbers args env = do
    devices ← number args.devices env "DEVICES" (pos 10_000) texts.int
    interval ← number args.interval env "INTERVAL" (literal (pos 3)) texts.float
    max_connections ← number args.max_connections env "MAX_CONNECTIONS" (pos 10_000) texts.int
    batch_size ← number args.batch_size env "BATCH_SIZE" (pos 100) texts.int
    batch_window_ms ← number args.batch_window_ms env "BATCH_WINDOW_MS" (pos 100) texts.int
    max_batch ← number args.max_batch env "MAX_BATCH" (pos 1_000) texts.int
    radius_km ← number args.radius_km env "RADIUS_KM" (literal (pos 25)) texts.float
    duration ← number args.duration env "DURATION" (literal (pos 0)) texts.float
    ramp_up ← number args.ramp_up env "RAMP_UP" (literal (pos 30)) texts.float
    seed ← number args.seed env "SEED" (pos 1) texts.int
    stats_interval ← number args.stats_interval env "STATS_INTERVAL" (literal (pos 5)) texts.float
    requested ← number args.connections env "CONNECTIONS" (pos 0) texts.int
    ok record {
      devices = devices;
      interval = interval;
      max_connections = max_connections;
      batch_size = batch_size;
      batch_window_ms = batch_window_ms;
      max_batch = max_batch;
      radius_km = radius_km;
      duration = duration;
      ramp_up = ramp_up;
      seed = seed;
      stats_interval = stats_interval;
      requested = requested;
    }

  -- whether somebody asked for a batch size
  unfoldable pub batch_size_asked : Args fl → Environ → Bool
  unfolding env_raw
  batch_size_asked args env = elim args.batch_size [
    | none ↦ not (str_eq (env_raw env "BATCH_SIZE") "")
    | some n ↦ true
  ]

  unfoldable pub connections_of : String → Numbers fl → ℤ
  connections_of transport n =
      let asked =
        if leb_ℤ n.requested (pos 0) && leb_ℤ (pos 0) n.requested
        then (if str_eq transport "ws" then n.devices else pos 32)
        else n.requested in
      max_ℤ (min_ℤ (min_ℤ asked n.devices) n.max_connections) (pos 1)

  -- The checks of `parse_config` in their order, and the configuration that passes them.
  unfoldable pub checked :
      Args fl → Environ → String → String → F × F → Numbers fl → Result UsageError (Config fl)
  unfolding batch_size_asked connections_of env_str
  checked args env url transport (lat, lon) n =
      let ingest_key = or_else (given args.ingest_key) (env_str env "INGEST_API_KEY" "") in
      let summary = env_str env "JSON_SUMMARY" "" in
      let verbose_text = texts.lower (env_str env "VERBOSE" "") in
      refuse_if (ltb_ℤ n.devices (pos 1)) devices_low (
        refuse_if (le n.interval (literal (pos 0))) interval_low (
          refuse_if (ltb_ℤ n.max_batch (pos 1)) max_batch_low (
            refuse_if (ltb_ℤ n.batch_size (pos 1)) batch_size_low (
              refuse_if (ltb_ℤ n.max_batch n.batch_size && batch_size_asked args env)
                batch_size_over
                (refuse_if (ltb_ℤ n.batch_window_ms (pos 0)) window_negative (
                  refuse_if (le n.radius_km (literal (pos 0))) radius_low (
                    refuse_if (lt n.duration (literal (pos 0)) || lt n.ramp_up (literal (pos 0)))
                      duration_negative
                      (refuse_if (le n.stats_interval (literal (pos 0))) stats_interval_low (
                        refuse_if (ltb_ℤ n.max_connections (pos 1)) max_connections_low (
                          refuse_if (ltb_ℤ n.requested (pos 0)) connections_negative (
                            refuse_if (str_eq ingest_key "") no_ingest_key (
                              ok record {
                                url = url;
                                transport = transport;
                                devices = n.devices;
                                interval = n.interval;
                                connections = connections_of transport n;
                                batch_size = min_ℤ n.batch_size n.max_batch;
                                batch_window_s =
                                    div (literal n.batch_window_ms) (literal (pos 1_000));
                                max_batch = n.max_batch;
                                area = record {
                                  lat = lat;
                                  lon = lon;
                                  radius_m = mul n.radius_km (literal (pos 1_000));
                                };
                                duration = n.duration;
                                ramp_up = n.ramp_up;
                                seed = n.seed;
                                ingest_key = ingest_key;
                                device_prefix =
                                    or_else (given args.device_prefix)
                                      (env_str env "DEVICE_PREFIX" "dev-");
                                stats_interval = n.stats_interval;
                                json_summary = elim args.json_summary [
                                  | some path ↦ some path
                                  | none ↦ if str_eq summary "" then none else some summary
                                ];
                                verbose = elim args.verbose [
                                  | some flag ↦ flag
                                  | none ↦
                                      any (str_eq verbose_text) ("1" ∷ "true" ∷ "yes" ∷ "on" ∷ [])
                                ];
                              }))))))))))))

  abbrev pub center_of : Option (F × F) → Environ → Result UsageError (F × F)
  center_of (some center) env = ok center
  center_of none env = parse_center (env_str env "CENTER" "50.4501,30.5234")

  unfoldable pub parse_config : Args fl → Environ → Result UsageError (Config fl)
  unfolding env_str read_numbers parse_center checked
  parse_config args env =
      let base = or_else (given args.url) (env_str env "GEOTRACK_URL" "http://localhost:8080") in
      let url = texts.rstrip_slash base in
      let transport = or_else (given args.transport) (env_str env "TRANSPORT" "ws") in
      refuse_if (not (texts.is_http url)) bad_url (
        refuse_if (not (str_eq transport "ws" || str_eq transport "http")) bad_transport (do
          n ← read_numbers args env
          center ← center_of args.center env
          checked args env url transport center n))

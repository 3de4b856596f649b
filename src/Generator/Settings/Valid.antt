-- ===== src/Generator/Settings/Valid.antt =====
-- What holds of a configuration that `parse_config` returns.
use Prim.Native.String.{String}
use text.Mathlib.Text.{◌==◌ as str_eq}
use geotrack.Prelude.{◌≡◌, refl, Bool, true, false, arith}
use geotrack.Prelude.Int.{ℤ, pos, ◌≤ℤ◌, ltb_ℤ}
use geotrack.Prelude.Result.{Result, ok, raise, ◌>>=◌, Returns}
use geotrack.Float.{Floats}
use geotrack.Generator.Settings.{
  Texts, UsageError, bad_url, bad_transport, devices_low, interval_low, max_batch_low,
  batch_size_low, batch_size_over, window_negative, radius_low, duration_negative,
  stats_interval_low, max_connections_low, connections_negative, no_ingest_key, Args, Config,
  Numbers, Environ, refuse_if, min_ℤ, max_ℤ, read_numbers, center_of, connections_of, checked,
  parse_config,
}

-- What the checks of `parse_config` leave. A NaN is not at most zero: an interval may be one.
pub record IsValid {fl : Floats} (c : Config fl) : Type 0 where
  pub devices : pos 1 ≤ℤ c.devices
  pub interval : fl.le c.interval (fl.literal (pos 0)) ≡ false
  pub batch_size : pos 1 ≤ℤ c.batch_size
  pub max_batch : c.batch_size ≤ℤ c.max_batch
  pub connections : pos 1 ≤ℤ c.connections
  pub sockets : c.connections ≤ℤ c.devices
  pub stats_interval : fl.le c.stats_interval (fl.literal (pos 0)) ≡ false
  pub ingest_key : str_eq c.ingest_key "" ≡ false

-- A check that is passed leaves its negation.
refuse_if-Returns :
    {A : Type 0} (P : A → Type 0) (bad : Bool) (error : UsageError) (next : Result UsageError A)
    → (bad ≡ false → Returns P next)
    → Returns P (refuse_if bad error next)
unfolding refuse_if
refuse_if-Returns P true error next h = tt
refuse_if-Returns P false error next h = h refl

clamped_bounds :
    (asked devices most : ℤ)
    → pos 1 ≤ℤ devices
    → let n = max_ℤ (min_ℤ (min_ℤ asked devices) most) (pos 1) in (pos 1 ≤ℤ n) × (n ≤ℤ devices)
clamped_bounds asked devices most h = ground arith

fitted_bounds :
    (size most : ℤ)
    → pos 1 ≤ℤ size
    → pos 1 ≤ℤ most
    → (pos 1 ≤ℤ min_ℤ size most) × (min_ℤ size most ≤ℤ most)
fitted_bounds size most h k = ground arith

at_least : (n : ℤ) → ltb_ℤ n (pos 1) ≡ false → pos 1 ≤ℤ n
at_least n h = ground arith

then_after :
    {fl : Floats} {A : Type 0} (r : Result UsageError A) (f : A → Result UsageError (Config fl))
    → ((a : A) → Returns IsValid (f a))
    → Returns IsValid (r >>= f)
then_after (ok a) f h = h a
then_after (raise e) f h = tt

module _ (fl : Floats) (texts : Texts fl) where
  passes :
      (bad : Bool) (error : UsageError) (next : Result UsageError (Config fl))
      → (bad ≡ false → Returns IsValid next)
      → Returns IsValid (refuse_if bad error next)
  passes bad error next h = refuse_if-Returns IsValid bad error next h

  checked-IsValid :
      (args : Args fl) (env : Environ) (url transport : String) (center : fl.F × fl.F)
      (n : Numbers fl)
      → Returns IsValid (checked fl texts args env url transport center n)
  unfolding checked connections_of
  checked-IsValid args env url transport center n = passes _ devices_low _ λ devices.
      passes _ interval_low _ λ interval. passes _ max_batch_low _ λ max_batch.
        passes _ batch_size_low _ λ batch_size. passes _ batch_size_over _ λ _.
          passes _ window_negative _ λ _. passes _ radius_low _ λ _.
            passes _ duration_negative _ λ _. passes _ stats_interval_low _ λ stats_interval.
              passes _ max_connections_low _ λ _. passes _ connections_negative _ λ _.
                passes _ no_ingest_key _ λ ingest_key.
                  let size =
                    fitted_bounds n.batch_size n.max_batch (at_least n.batch_size batch_size)
                      (at_least n.max_batch max_batch) in
                  let open_ =
                    clamped_bounds _ n.devices n.max_connections (at_least n.devices devices) in
                  record {
                    devices = at_least n.devices devices;
                    interval = interval;
                    batch_size = size.0;
                    max_batch = size.1;
                    connections = open_.0;
                    sockets = open_.1;
                    stats_interval = stats_interval;
                    ingest_key = ingest_key;
                  }

  -- A configuration that `parse_config` returns has a device, a batch size between one and the
  -- largest batch, at least one connection and no more than devices, a key, and an interval between
  -- reports and one between statistics of which neither compares as at most zero: each is positive
  -- or a NaN.
  pub parse_config-IsValid :
      (args : Args fl) (env : Environ) → Returns IsValid (parse_config fl texts args env)
  unfolding parse_config
  parse_config-IsValid args env = passes _ bad_url _ λ _. passes _ bad_transport _ λ _.
      then_after (read_numbers fl texts args env) _ λ n.
        then_after (center_of fl texts args.center env) _
          λ center. checked-IsValid args env _ _ center n

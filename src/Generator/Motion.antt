-- ===== src/Generator/Motion.antt =====
-- generator.py: the demo area, and how a device moves in it.
use Prim.Native.String.{String}
use geotrack.Prelude.{ℕ, List, [], ◌∷◌, if◌then◌else◌}
use geotrack.Prelude.Int.{pos, negsuc}
use geotrack.Float.{Floats, max_of, min_of}
use geotrack.Generator.{Random, Math}

module _ (fl : Floats) where
  open fl use {F, lt, add, sub, mul, div, mod_, literal}

  -- a decimal fraction, `n / d`
  abbrev pub fraction : ℕ → ℕ → F
  fraction n d = div (literal (pos n)) (literal (pos d))

  abbrev pub m_per_deg_lat : F
  m_per_deg_lat = literal (pos 111_320)

  unfoldable pub wrap_deg : F → F
  wrap_deg delta =
      sub (mod_ (add delta (literal (pos 180))) (literal (pos 360))) (literal (pos 180))

pub record Area (fl : Floats) : Type 0 where
  pub lat : fl.F
  pub lon : fl.F
  pub radius_m : fl.F

pub record MotionProfile (fl : Floats) : Type 0 where
  pub name : String
  pub share : fl.F
  pub min_speed_mps : fl.F
  pub max_speed_mps : fl.F
  pub heading_sigma_deg : fl.F
  pub speed_sigma_mps : fl.F

pub record DeviceState (fl : Floats) : Type 0 where
  pub device_id : String
  pub lat : fl.F
  pub lon : fl.F
  pub heading_deg : fl.F
  pub speed_mps : fl.F
  pub profile : MotionProfile fl

module _ (fl : Floats) where
  open fl use {F, lt, add, sub, mul, div, mod_, literal}

  unfoldable pub stationary : MotionProfile fl
  stationary = record {
    name = "stationary";
    share = fraction fl 20 100;
    min_speed_mps = literal (pos 0);
    max_speed_mps = fraction fl 4 10;
    heading_sigma_deg = literal (pos 30);
    speed_sigma_mps = fraction fl 8 100;
  }

  unfoldable pub pedestrian : MotionProfile fl
  pedestrian = record {
    name = "pedestrian";
    share = fraction fl 35 100;
    min_speed_mps = fraction fl 6 10;
    max_speed_mps = literal (pos 2);
    heading_sigma_deg = literal (pos 12);
    speed_sigma_mps = fraction fl 20 100;
  }

  unfoldable pub cyclist : MotionProfile fl
  cyclist = record {
    name = "cyclist";
    share = fraction fl 20 100;
    min_speed_mps = literal (pos 3);
    max_speed_mps = fraction fl 65 10;
    heading_sigma_deg = literal (pos 8);
    speed_sigma_mps = fraction fl 50 100;
  }

  unfoldable pub car : MotionProfile fl
  car = record {
    name = "car";
    share = fraction fl 25 100;
    min_speed_mps = literal (pos 12);
    max_speed_mps = literal (pos 20);
    heading_sigma_deg = literal (pos 5);
    speed_sigma_mps = fraction fl 120 100;
  }

  -- The loop of `profile_for` over the shares; the last profile answers when none is reached.
  unfoldable pub profile_from : F → F → List (MotionProfile fl) → MotionProfile fl
  unfolding car
  profile_from draw cumulative [] = car
  profile_from draw cumulative (p ∷ ps) =
      let reached = add cumulative p.share in
      let rest = profile_from draw reached ps in if lt draw reached then p else rest

  module _ (mt : Math fl) where
    open mt use {sqrt, sin, cos, radians, degrees, hypot, atan2}

    unfoldable pub m_per_deg_lon : F → F
    m_per_deg_lon lat = max_of fl (mul (m_per_deg_lat fl) (cos (radians lat))) (literal (pos 1))

    -- metres east and north of the centre
    unfoldable pub offsets : Area fl → F → F → F × F
    unfolding wrap_deg m_per_deg_lon
    offsets area lat lon = (
      mul (wrap_deg fl (sub lon area.lon))
          (m_per_deg_lon (div (add lat area.lat) (literal (pos 2)))),
      mul (sub lat area.lat) (m_per_deg_lat fl),
    )

    unfoldable pub position : Area fl → F → F → F × F
    unfolding wrap_deg m_per_deg_lon
    position area east north =
        let free = add area.lat (div north (m_per_deg_lat fl)) in
        let edge = fraction fl 899 10 in
        let lat = min_of fl (max_of fl free (div (literal (negsuc 898)) (literal (pos 10)))) edge in
        (
          lat,
          wrap_deg fl
              (add area.lon (div east (m_per_deg_lon (div (add lat area.lat) (literal (pos 2)))))),
        )

    unfoldable pub reflect : F → F → F → F → F → F × F × F
    reflect east north radius limit heading_deg =
        let scale =
          div (max_of fl (sub (mul (literal (pos 2)) limit) radius) (literal (pos 0))) radius in
        let normal_deg = degrees (atan2 east north) in
        (
          mul east scale,
          mul north scale,
          mod_ (sub (add (mul (literal (pos 2)) normal_deg) (literal (pos 180))) heading_deg)
              (literal (pos 360)),
        )

    module _ (rnd : Random fl) where
      open rnd use {R, random, uniform, gauss}

      -- `advance`, with the device's random stream
      unfoldable pub advance : DeviceState fl → F → Area fl → R → DeviceState fl × R
      unfolding offsets position reflect
      advance state dt area rng =
          let profile = state.profile in
          let scale = sqrt dt in
          let (turn, rng1) = gauss (literal (pos 0)) (mul profile.heading_sigma_deg scale) rng in
          let heading_deg = mod_ (add state.heading_deg turn) (literal (pos 360)) in
          let (change, rng2) = gauss (literal (pos 0)) (mul profile.speed_sigma_mps scale) rng1 in
          let drifted = add state.speed_mps change in
          let speed = min_of fl (max_of fl drifted profile.min_speed_mps) profile.max_speed_mps in
          let heading = radians heading_deg in
          let distance = mul speed dt in
          let (east0, north0) = offsets area state.lat state.lon in
          let east = add east0 (mul distance (sin heading)) in
          let north = add north0 (mul distance (cos heading)) in
          let radius = hypot east north in
          let (e, n, h) =
            if lt area.radius_m radius
            then reflect east north radius area.radius_m heading_deg
            else (east, north, heading_deg) in
          let (lat, lon) = position area e n in
          (record state { lat = lat; lon = lon; heading_deg = h; speed_mps = speed }, rng2)

      unfoldable pub profile_for : R → MotionProfile fl × R
      unfolding profile_from stationary pedestrian cyclist car
      profile_for rng =
          let (draw, rng') = random rng in
          (profile_from draw (literal (pos 0)) (stationary ∷ pedestrian ∷ cyclist ∷ car ∷ []), rng')

      -- One round of `build_fleet`; `tau` is `2.0 * math.pi`.
      unfoldable pub build_device : F → Area fl → String → R → DeviceState fl
      unfolding profile_for position
      build_device tau area device_id rng =
          let (profile, rng1) = profile_for rng in
          let (draw, rng2) = random rng1 in
          let distance = mul area.radius_m (sqrt draw) in
          let (bearing, rng3) = uniform (literal (pos 0)) tau rng2 in
          let (lat, lon) =
            position area (mul distance (sin bearing)) (mul distance (cos bearing)) in
          let (heading, rng4) = uniform (literal (pos 0)) (literal (pos 360)) rng3 in
          let (speed, rng5) = uniform profile.min_speed_mps profile.max_speed_mps rng4 in
          record {
            device_id = device_id;
            lat = lat;
            lon = lon;
            heading_deg = heading;
            speed_mps = speed;
            profile = profile;
          }

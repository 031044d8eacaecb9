-- ===== src/Zoom/Decimation.antt =====
-- class DecimationController of kv8zoom/DecimationController.cpp, with ZoomRate of kv8zoom/Config.h.
-- A time is a natural number of microseconds of the steady clock, a double its bit pattern.
use kv8_metrics.Prelude.{
  ℕ, ◌+◌, ◌/◌, min, max, Bool, true, false, ◌&&◌, List, [], ◌∷◌, ltb, if◌then◌else◌,
}
use kv8_metrics.Prelude.Int.{ℤ, int_lt}

pub record ZoomRate : Type 0 where
  pub zoom_max : ℤ
  pub rate_hz : ℤ

pub record NavState : Type 0 where
  pub last_emit : ℕ
  pub last_lat : ℕ
  pub last_lon : ℕ
  pub has_ref : Bool

-- `m_cfg`, with its rates sorted by the constructor, and the members.
pub record Controller : Type 0 where
  pub zoom_rates : List ZoomRate
  pub min_displacement : ℕ
  pub zoom : ℕ
  pub nav : NavState
  pub att : ℕ
  pub mot : ℕ
  pub wx : ℕ

-- The comparison of doubles and the distance of two positions.
pub record Floats : Type 0 where
  pub less : ℕ → ℕ → Bool
  pub haversine_dist : (lat1 lon1 lat2 lon2 : ℕ) → ℕ

-- The constructor; `sort` is std::sort by `zoom_max`.
unfoldable pub new_controller : (List ZoomRate → List ZoomRate) → List ZoomRate → ℕ → Controller
new_controller sort rates min_displacement = record {
  zoom_rates = sort rates;
  min_displacement = min_displacement;
  zoom = 15;
  nav = record { last_emit = 0; last_lat = 0; last_lon = 0; has_ref = false };
  att = 0;
  mot = 0;
  wx = 0;
}

unfoldable pub clamp_zoom : ℤ → ℕ
clamp_zoom (ℤ.pos z) = min 22 z
clamp_zoom (ℤ.negsuc z) = 0

unfoldable pub set_zoom : ℤ → Controller → Controller
unfolding clamp_zoom
set_zoom z c = record c { zoom = clamp_zoom z }

-- The loop of `IntervalUs`, with the rate so far.
unfoldable pub rate_at : ℕ → ℤ → List ZoomRate → ℤ
unfolding int_lt
rate_at zoom rate [] = rate
rate_at zoom rate (zr ∷ rates) =
    let further = rate_at zoom zr.rate_hz rates in
    if int_lt zr.zoom_max (ℤ.pos zoom) then further else zr.rate_hz

-- `if (rate_hz <= 0) rate_hz = 1`
unfoldable pub at_least_one : ℤ → ℕ
at_least_one (ℤ.pos n) = max 1 n
at_least_one (ℤ.negsuc n) = 1

unfoldable pub interval_us : Controller → ℕ
unfolding rate_at at_least_one
interval_us c = 1000000 / at_least_one (rate_at c.zoom (ℤ.pos 1) c.zoom_rates)

-- The displacement gate: the vehicle has not moved enough.
unfoldable pub too_near : Floats → (lat lon : ℕ) → Controller → Bool
too_near fl lat lon c =
    c.nav.has_ref
    && fl.less 0 c.min_displacement
    && fl.less (fl.haversine_dist lat lon c.nav.last_lat c.nav.last_lon) c.min_displacement

unfoldable pub should_emit_nav : Floats → (lat lon now : ℕ) → Controller → Controller × Bool
unfolding interval_us too_near
should_emit_nav fl lat lon now c =
    if ltb now (c.nav.last_emit + interval_us c)
    then (c, false)
    else if too_near fl lat lon c
    then (record c { nav = record c.nav { last_emit = now } }, false)
    else (
      record c { nav = record { last_emit = now; last_lat = lat; last_lon = lon; has_ref = true } },
      true,
    )

unfoldable pub should_emit_att : ℕ → Controller → Controller × Bool
unfolding interval_us
should_emit_att now c =
    if ltb now (c.att + interval_us c) then (c, false) else (record c { att = now }, true)

unfoldable pub should_emit_mot : ℕ → Controller → Controller × Bool
unfolding interval_us
should_emit_mot now c =
    if ltb now (c.mot + interval_us c) then (c, false) else (record c { mot = now }, true)

unfoldable pub should_emit_wx : ℕ → Controller → Controller × Bool
unfolding interval_us
should_emit_wx now c =
    if ltb now (c.wx + max (interval_us c) 2000000)
    then (c, false)
    else (record c { wx = now }, true)

-- ===== src/Zoom/Rates.antt =====
-- The interval of kv8zoom/DecimationController.cpp by zoom level.
use kv8_metrics.Prelude.{ℕ, ◌/◌, ◌≤◌, ◌≡◌, refl, true, List, [], ◌∷◌, arith}
use native.Mathlib.Nat.{le-div_iff_mul-le, div-mul-le_self}
use kv8_metrics.Prelude.Int.{ℤ, int_lt}
use kv8_metrics.Zoom.Decimation.{ZoomRate, Controller, rate_at, at_least_one, interval_us}

-- The rates of the table go up, from `rate` on.
abbrev pub Ascending : ℤ → List ZoomRate → Type 0
Ascending rate [] = Unit {0}
Ascending rate (zr ∷ rates) =
    (at_least_one rate ≤ at_least_one zr.rate_hz) × Ascending zr.rate_hz rates

rate_at-above :
    (zoom : ℕ) (rate : ℤ) (rates : List ZoomRate)
    → Ascending rate rates
    → at_least_one rate ≤ at_least_one (rate_at zoom rate rates)
unfolding rate_at
rate_at-above zoom rate [] up = omega arith
rate_at-above zoom rate (zr ∷ rates) up =
    ground (arith, up.0, rate_at-above zoom zr.rate_hz rates up.1)

int_lt-closer :
    (z : ℤ) (zoom closer : ℕ)
    → zoom ≤ closer
    → int_lt z (ℤ.pos zoom) ≡ true
    → int_lt z (ℤ.pos closer) ≡ true
unfolding int_lt
int_lt-closer (ℤ.pos z) zoom closer h e = ground arith
int_lt-closer (ℤ.negsuc z) zoom closer h e = refl

rate_at-monotone :
    (zoom closer : ℕ) (rate : ℤ) (rates : List ZoomRate)
    → zoom ≤ closer
    → Ascending rate rates
    → at_least_one (rate_at zoom rate rates) ≤ at_least_one (rate_at closer rate rates)
unfolding rate_at
rate_at-monotone zoom closer rate [] h up = omega arith
rate_at-monotone zoom closer rate (zr ∷ rates) h up = ground (
  arith,
  up.1,
  int_lt-closer zr.zoom_max zoom closer h,
  rate_at-monotone zoom closer zr.rate_hz rates h up.1,
  rate_at-above closer zr.rate_hz rates up.1,
)

at_least_one-positive : (rate : ℤ) → 1 ≤ at_least_one rate
unfolding at_least_one
at_least_one-positive (ℤ.pos n) = ground arith
at_least_one-positive (ℤ.negsuc n) = ground arith

div-antitone : (n a b : ℕ) → 1 ≤ a → a ≤ b → n / b ≤ n / a
div-antitone n a b positive h = (le-div_iff_mul-le positive).1 (grind (arith, div-mul-le_self n b))

-- Where the rates of the table go up, starting with any first one: to come closer never makes the
-- interval longer.
pub interval_us-antitone :
    (c : Controller) (zoom closer : ℕ)
    → zoom ≤ closer
    → Ascending (ℤ.pos 1) c.zoom_rates
    → interval_us (record c { zoom = closer }) ≤ interval_us (record c { zoom = zoom })
unfolding interval_us
interval_us-antitone c zoom closer h up =
    div-antitone 1000000 (at_least_one (rate_at zoom (ℤ.pos 1) c.zoom_rates))
      (at_least_one (rate_at closer (ℤ.pos 1) c.zoom_rates)) (at_least_one-positive _)
      (rate_at-monotone zoom closer (ℤ.pos 1) c.zoom_rates h up)

-- ===== src/Zoom/Tests.antt =====
-- The decimation at concrete inputs, and an instance of each property.
use kv8_metrics.Prelude.{ℕ, ◌≡◌, refl, List, [], ◌∷◌, if◌then◌else◌, ◌-◌, ltb, arith}
use kv8_metrics.Prelude.Int.{ℤ}
use kv8_metrics.Zoom.Decimation.{ZoomRate, Controller, Floats, new_controller}
use kv8_metrics.Zoom.Spacing.{Feed, Input, Emission, Apart, emissions, emissions-Apart}

abbrev rate : ℕ → ℕ → ZoomRate
rate zoom_max rate_hz = record { zoom_max = ℤ.pos zoom_max; rate_hz = ℤ.pos rate_hz }

-- The default configuration, with a displacement of 3 units.
abbrev fresh : Controller
fresh =
    new_controller (λ rates. rates)
      (rate 10 1 ∷ rate 14 5 ∷ rate 17 15 ∷ rate 19 30 ∷ rate 99 60 ∷ []) 3

-- Whole numbers for doubles, and positions on a meridian.
abbrev floats : Floats
floats = record {
  less = ltb;
  haversine_dist = λ lat1 lon1 lat2 lon2. if ltb lat1 lat2 then lat2 - lat1 else lat1 - lat2;
}

abbrev inputs : List Input
inputs =
    Input.nav_frame 100 0 1000000
    ∷ Input.nav_frame 101 0 1100000
    ∷ Input.nav_frame 105 0 1150000
    ∷ Input.nav_frame 105 0 1200000
    ∷ Input.frame Feed.att 1200000
    ∷ Input.camera (ℤ.pos 5)
    ∷ Input.frame Feed.att 1300000
    ∷ Input.frame Feed.wx 1300000
    ∷ Input.frame Feed.att 2200000
    ∷ Input.frame Feed.wx 3300000
    ∷ []

abbrev emission : Feed → ℕ → ℕ → Emission
emission f t i = record { feed = f; time = t; interval = i }

let_through :
    emissions floats inputs fresh
    ≡ emission Feed.nav 1000000 66666
      ∷ emission Feed.nav 1200000 66666
      ∷ emission Feed.att 1200000 66666
      ∷ emission Feed.att 2200000 1000000
      ∷ emission Feed.wx 3300000 2000000
      ∷ []
unfolding new_controller emissions
let_through = refl

emissions-Apart_example : Apart Feed.att 0 (emissions floats inputs fresh)
unfolding new_controller
emissions-Apart_example = emissions-Apart floats Feed.att inputs fresh 0 (omega arith)

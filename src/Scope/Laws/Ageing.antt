-- ===== src/Scope/Laws/Ageing.antt =====
-- The classes of `ProbeSessionLiveness` of kv8scope/SessionManager.cpp over time.
use kv8_metrics.Prelude.{ℕ, ◌≤◌, arith}
use kv8_metrics.Prelude.Int.{ℤ}
use kv8_metrics.Scope.Liveness.{Liveness, younger, by_age}

abbrev pub rank : Liveness → ℕ
rank Liveness.live = 0
rank Liveness.going_offline = 1
rank Liveness.offline = 2
rank Liveness.historical = 3
rank Liveness.unknown = 4

-- With no new timestamp, and limits in order, a session only ages: it goes from Live over GoingOffline
-- to Offline as the clock goes on, and never back.
pub by_age-rank :
    (now later : ℕ) (ts : ℤ) (live_s dead_s : ℕ)
    → now ≤ later
    → live_s ≤ dead_s
    → rank (by_age now ts live_s dead_s) ≤ rank (by_age later ts live_s dead_s)
unfolding by_age younger
by_age-rank now later (ℤ.pos ts) live_s dead_s h order = ground arith
by_age-rank now later (ℤ.negsuc ts) live_s dead_s h order = ground arith

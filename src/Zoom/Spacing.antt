-- ===== src/Zoom/Spacing.antt =====
-- The times of the frames that kv8zoom/DecimationController.cpp lets through.
use kv8_metrics.Prelude.{
  ℕ, ◌+◌, ◌≤◌, max, ◌≡◌, refl, Bool, true, false, List, [], ◌∷◌, if◌then◌else◌, Bool-cases, inl,
  inr, arith,
}
use kv8_metrics.Prelude.Int.{ℤ}
use kv8_metrics.Zoom.Decimation.{
  Controller, Floats, set_zoom, interval_us, should_emit_nav, should_emit_att, should_emit_mot,
  should_emit_wx,
}

pub data Feed : Type 0 where
  nav att mot wx : Feed

-- What the bridge hands to the controller: a camera message, or a frame at a time.
pub data Input : Type 0 where
  camera : (zoom : ℤ) → Input
  nav_frame : (lat lon now : ℕ) → Input
  frame : Feed → (now : ℕ) → Input

-- A frame that was let through, with the interval in force.
pub record Emission : Type 0 where
  pub feed : Feed
  pub time : ℕ
  pub interval : ℕ

abbrev pub least_interval : Feed → Controller → ℕ
least_interval Feed.wx c = max (interval_us c) 2000000
least_interval _ c = interval_us c

abbrev pub noted : Feed → ℕ → ℕ → List Emission → Bool → List Emission
noted f now interval more emitted =
    if emitted then record { feed = f; time = now; interval = interval } ∷ more else more

abbrev pub last_emit : Feed → Controller → ℕ
last_emit Feed.nav c = c.nav.last_emit
last_emit Feed.att c = c.att
last_emit Feed.mot c = c.mot
last_emit Feed.wx c = c.wx

unfoldable pub answer : Floats → Input → Controller → Controller × Bool
unfolding set_zoom should_emit_nav should_emit_att should_emit_mot should_emit_wx
answer fl (Input.camera z) c = (set_zoom z c, false)
answer fl (Input.nav_frame lat lon now) c = should_emit_nav fl lat lon now c
answer fl (Input.frame Feed.nav now) c = (c, false)
answer fl (Input.frame Feed.att now) c = should_emit_att now c
answer fl (Input.frame Feed.mot now) c = should_emit_mot now c
answer fl (Input.frame Feed.wx now) c = should_emit_wx now c

abbrev pub feed_of : Input → Feed
feed_of (Input.frame f now) = f
feed_of _ = Feed.nav

abbrev pub time_of : Input → ℕ
time_of (Input.camera z) = 0
time_of (Input.nav_frame lat lon now) = now
time_of (Input.frame f now) = now

unfoldable pub emissions : Floats → List Input → Controller → List Emission
unfolding answer
emissions fl [] c = []
emissions fl (i ∷ inputs) c =
    let (c', emitted) = answer fl i c in
    noted (feed_of i) (time_of i) (least_interval (feed_of i) c) (emissions fl inputs c') emitted

abbrev pub same_feed : Feed → Feed → Bool
same_feed Feed.nav Feed.nav = true
same_feed Feed.att Feed.att = true
same_feed Feed.mot Feed.mot = true
same_feed Feed.wx Feed.wx = true
same_feed _ _ = false

-- Each frame of the feed comes its interval after the one before, the first one after the time `t`.
pub data Apart (f : Feed) : ℕ → List Emission → Type 0 where
  done : {t : ℕ} → Apart f t []
  other :
      {t : ℕ} {e : Emission} {es : List Emission}
      → same_feed e.feed f ≡ false
      → Apart f t es
      → Apart f t (e ∷ es)
  next :
      {t : ℕ} {e : Emission} {es : List Emission}
      → same_feed e.feed f ≡ true
      → t + e.interval ≤ e.time
      → Apart f e.time es
      → Apart f t (e ∷ es)

-- What a call leaves: the time that is noted, and a frame at least the interval behind the one before.
Kept : Feed → Input → Controller → Controller × Bool → Type 0
Kept f i c r =
    (last_emit f c ≤ last_emit f r.0)
    × (r.1 ≡ true
        → same_feed (feed_of i) f ≡ true
        → (last_emit f c + least_interval (feed_of i) c ≤ time_of i)
          × (last_emit f r.0 ≡ time_of i))

answer-Kept : (fl : Floats) (f : Feed) (i : Input) (c : Controller) → Kept f i c (answer fl i c)
unfolding Kept answer set_zoom should_emit_nav should_emit_att should_emit_mot should_emit_wx
answer-Kept fl f (Input.camera z) c = ground arith
answer-Kept fl f (Input.nav_frame lat lon now) c = ground arith
answer-Kept fl f (Input.frame Feed.nav now) c = ground arith
answer-Kept fl f (Input.frame Feed.att now) c = ground arith
answer-Kept fl f (Input.frame Feed.mot now) c = ground arith
answer-Kept fl f (Input.frame Feed.wx now) c = ground arith

noted-Apart :
    (f g : Feed) (now interval : ℕ) (more : List Emission) (emitted : Bool) {t : ℕ}
    → (emitted ≡ true → same_feed g f ≡ true → (t + interval ≤ now) × Apart f now more)
    → Apart f t more
    → Apart f t (noted g now interval more emitted)
noted-Apart f g now interval more false h rest = rest
noted-Apart f g now interval more true h rest = elim (Bool-cases (same_feed g f)) [
  | inl same ↦ Apart.next same (h refl same).0 (h refl same).1
  | inr distinct ↦ Apart.other distinct rest
]

-- For any camera messages and frames, in any order and at any times, a feed and a time that is not after
-- the one noted for it: the first frame of that feed that is let through comes at least an interval after
-- that time, and each further one at least an interval after the one before, the interval being the
-- one in force at the frame's own zoom level, and at least 2 s for the weather.
pub emissions-Apart :
    (fl : Floats) (f : Feed) (inputs : List Input) (c : Controller) (t : ℕ)
    → t ≤ last_emit f c
    → Apart f t (emissions fl inputs c)
unfolding Kept emissions
emissions-Apart fl f [] c t h = Apart.done
emissions-Apart fl f (i ∷ inputs) c t h =
    let k = answer-Kept fl f i c in
    let rest = emissions-Apart fl f inputs (answer fl i c).0 in
    noted-Apart f (feed_of i) (time_of i) (least_interval (feed_of i) c)
      (emissions fl inputs (answer fl i c).0) (answer fl i c).1
      (λ emitted same. (
        omega (arith, h, (k.1 emitted same).0),
        rest (time_of i) (omega (arith, (k.1 emitted same).1)),
      ))
      (rest t (omega (arith, h, k.0)))

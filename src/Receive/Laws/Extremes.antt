-- ===== src/Receive/Laws/Extremes.antt =====
-- The accumulators of kv8scope/StatsEngine.cpp over many samples.
use native.Mathlib.Nat.{mod-eq_of_lt}
use kv8_metrics.Prelude.{
  ℕ, suc, ltb, ◌+◌, ◌%◌, ◌^◌, ◌<◌, ◌≡◌, refl, ap, ◌∙◌, true, false, some, List, [], ◌∷◌, length,
  ==_iff, inl, inr, Bool-cases, if◌then◌else◌, arith,
}
use mathlib.Core.List.{Memᴰ}
use kv8_metrics.Prelude.Assoc.{find, find-assign, nat_eq}
use kv8_metrics.Receive.Stats.{
  Reals, FullDurationStats, make_key, no_samples, atomic_min, atomic_max, accumulate, feed,
  get_full_stats, full_stats,
}

-- What the comparison of doubles keeps to, NaN included: nothing is below itself, and what is not
-- below one value is not below a lesser one.
pub record Ordered (re : Reals) : Type 0 where
  pub not_self : (a : ℕ) → re.less a a ≡ false
  pub not_lower : (v a b : ℕ) → re.less v a ≡ false → re.less b a ≡ true → re.less v b ≡ false
  pub not_higher : (v a b : ℕ) → re.less a v ≡ false → re.less a b ≡ true → re.less b v ≡ false

abbrev pub accumulate_all : Reals → FullDurationStats → List ℕ → FullDurationStats
accumulate_all re s [] = s
accumulate_all re s (v ∷ vs) = accumulate_all re (accumulate re s v) vs

-- The value lies between the least and the greatest.
abbrev pub Covers : Reals → FullDurationStats → ℕ → Type 0
Covers re s v = (re.less v s.min ≡ false) × (re.less s.max v ≡ false)

module _ (re : Reals) (o : Ordered re) where
  accumulate-Covers :
      (s : FullDurationStats) (v w : ℕ) → Covers re s w → Covers re (accumulate re s v) w
  unfolding accumulate atomic_min atomic_max
  accumulate-Covers s v w h = (
    elim (Bool-cases (re.less v s.min)) [
      | inl e ↦ rw (e, accumulate) (o.not_lower w s.min v h.0 e)
      | inr e ↦ rw (e, accumulate) h.0
    ],
    elim (Bool-cases (re.less s.max v)) [
      | inl e ↦ rw (e, accumulate) (o.not_higher w s.max v h.1 e)
      | inr e ↦ rw (e, accumulate) h.1
    ],
  )

  accumulated-Covers : (s : FullDurationStats) (v : ℕ) → Covers re (accumulate re s v) v
  unfolding accumulate atomic_min atomic_max
  accumulated-Covers s v = (
    elim (Bool-cases (re.less v s.min)) [
      | inl e ↦ rw (e, accumulate) (o.not_self v)
      | inr e ↦ rw (e, accumulate) e
    ],
    elim (Bool-cases (re.less s.max v)) [
      | inl e ↦ rw (e, accumulate) (o.not_self v)
      | inr e ↦ rw (e, accumulate) e
    ],
  )

  all-Covers :
      (s : FullDurationStats) (vs : List ℕ) (w : ℕ)
      → Covers re s w
      → Covers re (accumulate_all re s vs) w
  all-Covers s [] w h = h
  all-Covers s (v ∷ vs) w h = all-Covers (accumulate re s v) vs w (accumulate-Covers s v w h)

  accumulate_all-Covers :
      (s : FullDurationStats) (vs : List ℕ) (w : ℕ)
      → Memᴰ w vs
      → Covers re (accumulate_all re s vs) w
  accumulate_all-Covers s [] w m = elim m [ ]
  accumulate_all-Covers s (v ∷ vs) w (Memᴰ.head e) =
      rw e (all-Covers (accumulate re s v) vs v (accumulated-Covers s v))
  accumulate_all-Covers s (v ∷ vs) w (Memᴰ.tail m) =
      accumulate_all-Covers (accumulate re s v) vs w m

accumulate_all-count :
    (re : Reals) (s : FullDurationStats) (vs : List ℕ)
    → s.count + length vs < 2 ^ 64
    → (accumulate_all re s vs).count ≡ s.count + length vs
unfolding accumulate
accumulate_all-count re s [] h = omega arith
accumulate_all-count re s (v ∷ vs) h =
    let next : (s.count + 1) % 2 ^ 64 ≡ s.count + 1 =
      mod-eq_of_lt {n = s.count + 1} {m = 2 ^ 64} (omega (arith, h)) in
    omega (arith, accumulate_all-count re (accumulate re s v) vs (omega (arith, h, next)), next)

abbrev pub feed_all :
    Reals → ℕ → ℕ → List ℕ → List (ℕ × FullDurationStats) → List (ℕ × FullDurationStats)
feed_all re hash id [] stats = stats
feed_all re hash id (v ∷ vs) stats = feed_all re hash id vs (feed re hash id v stats)

find-feed :
    (re : Reals) (hash id v : ℕ) (s : FullDurationStats) (stats : List (ℕ × FullDurationStats))
    → find (make_key hash id) stats ≡ some s
    → find (make_key hash id) (feed re hash id v stats) ≡ some (accumulate re s v)
unfolding feed
find-feed re hash id v s stats e =
    rw (e, feed)
      (find-assign (make_key hash id) (make_key hash id) (accumulate re s v) stats
        ∙ ground (arith, ==_iff (make_key hash id) (make_key hash id)))

find-feed_all :
    (re : Reals) (hash id : ℕ) (vs : List ℕ) (s : FullDurationStats)
    (stats : List (ℕ × FullDurationStats))
    → find (make_key hash id) stats ≡ some s
    → find (make_key hash id) (feed_all re hash id vs stats) ≡ some (accumulate_all re s vs)
find-feed_all re hash id [] s stats e = e
find-feed_all re hash id (v ∷ vs) s stats e =
    find-feed_all re hash id vs (accumulate re s v) (feed re hash id v stats)
      (find-feed re hash id v s stats e)

full_stats_lem :
    (re : Reals) (s : FullDurationStats) (k : ℕ)
    → s.count ≡ suc k
    → full_stats re s ≡ ((suc k, s.min, s.max, re.over s.sum (re.of_nat (suc k))), true)
unfolding full_stats
full_stats_lem re s k e =
    let positive : ltb 0 (suc k) ≡ true = ground arith in
    ap
      (λ (n : ℕ).
        ((n, s.min, s.max, (if ltb 0 n then re.over s.sum (re.of_nat n) else 0)), ltb 0 n))
      e
    ∙ rw positive refl

-- For a counter that was registered and has no samples yet, and fewer than 2 ^ 64 samples, one at
-- least, with a comparison of doubles as the standard has it: the statistics are found, their count is
-- the number of samples, and no sample is below the least or above the greatest value.
pub get_full_stats-feed_all :
    (re : Reals) (hash id v : ℕ) (vs : List ℕ) (stats : List (ℕ × FullDurationStats))
    → Ordered re
    → find (make_key hash id) stats ≡ some (no_samples re)
    → length (v ∷ vs) < 2 ^ 64
    → (s : FullDurationStats) × (get_full_stats re hash id (feed_all re hash id (v ∷ vs) stats)
        ≡ some ((length (v ∷ vs), s.min, s.max, re.over s.sum (re.of_nat (length (v ∷ vs)))), true))
      × ((w : ℕ) → Memᴰ w (v ∷ vs) → Covers re s w)
unfolding get_full_stats no_samples
get_full_stats-feed_all re hash id v vs stats o e h =
    let s = accumulate_all re (no_samples re) (v ∷ vs) in
    let n : s.count ≡ suc (length vs) =
      accumulate_all-count re (no_samples re) (v ∷ vs) (omega (arith, h)) ∙ omega arith in
    (
      s,
      rw (find-feed_all re hash id (v ∷ vs) (no_samples re) stats e, get_full_stats)
          (ap some (full_stats_lem re s (length vs) n)),
      λ w m. accumulate_all-Covers re o (no_samples re) (v ∷ vs) w m,
    )

-- ===== src/Zoom/Trail.antt =====
-- class PathSimplifier of kv8zoom/PathSimplifier.{h,cpp}. A double is its bit pattern; the distance of
-- a point from a segment and the comparison of doubles are arguments. The recursion of Douglas and
-- Peucker takes fuel, and gives none when it runs out.
use kv8_metrics.Prelude.{
  ℕ, zero, suc, ◌+◌, ◌-◌, ◌/◌, Bool, true, false, not, Option, none, some, List, [], ◌∷◌, ◌++◌,
  length, drop, get_or, set, replicate, ltb, leb, ◌==◌, if◌then◌else◌,
}
use kv8_metrics.Prelude.Int.{ℤ, int_eq}

pub record TrailPoint : Type 0 where
  pub ts_us : ℤ
  pub lat_deg : ℕ
  pub lon_deg : ℕ
  pub alt_m : ℕ

pub record Metric : Type 0 where
  pub less : ℕ → ℕ → Bool
  pub cross_track_dist : (a b p : TrailPoint) → ℕ

abbrev pub max_points : ℕ
max_points = 65536

unfoldable pub append : TrailPoint → List TrailPoint → List TrailPoint
append p pts =
    let longer = pts ++ p ∷ [] in
    if leb max_points (length longer) then drop (max_points / 2) longer else longer

abbrev pub origin : TrailPoint
origin = record { ts_us = ℤ.pos 0; lat_deg = 0; lon_deg = 0; alt_m = 0 }

module _ (mt : Metric) (epsilon : ℕ) (pts : List TrailPoint) where
  -- The distance of the point `i` from the segment between two others. The indices are below the
  -- number of points.
  unfoldable pub deviation : (first last i : ℕ) → ℕ
  deviation first last i =
      mt.cross_track_dist (get_or pts first origin) (get_or pts last origin) (get_or pts i origin)

  -- The loop over `count` points from `i` on, with `maxDist` and `maxIdx`.
  unfoldable pub farthest : (first last count i : ℕ) → ℕ × ℕ → ℕ × ℕ
  unfolding deviation
  farthest first last zero i best = best
  farthest first last (suc count) i best =
      let d = deviation first last i in
      farthest first last count (i + 1) (if mt.less best.0 d then (d, i) else best)

  unfoldable pub and_then :
      Option (List Bool) → (List Bool → Option (List Bool)) → Option (List Bool)
  and_then none f = none
  and_then (some keep) f = f keep

  unfoldable pub douglas_peucker : (fuel first last : ℕ) → List Bool → Option (List Bool)
  unfolding farthest and_then
  douglas_peucker zero first last keep = none
  douglas_peucker (suc fuel) first last keep =
      let best = farthest first last (last - (first + 1)) (first + 1) (0, first) in
      let both =
        and_then (douglas_peucker fuel first best.1 (set keep best.1 true))
          (λ halved. douglas_peucker fuel best.1 last halved) in
      if leb last (first + 1) then some keep else if mt.less epsilon best.0 then both else some keep

unfoldable pub kept_points : List Bool → List TrailPoint → List TrailPoint
kept_points [] pts = []
kept_points (b ∷ keep) [] = []
kept_points (b ∷ keep) (p ∷ pts) = let more = kept_points keep pts in if b then p ∷ more else more

-- The points at `i`, `i + stride`, `i + 2 * stride`, ...
unfoldable pub every : (stride i : ℕ) → List TrailPoint → List TrailPoint
every stride i [] = []
every stride zero (p ∷ pts) = p ∷ every stride (stride - 1) pts
every stride (suc i) (p ∷ pts) = every stride i pts

unfoldable pub back : TrailPoint → List TrailPoint → TrailPoint
back p [] = p
back p (q ∷ pts) = back q pts

-- The subsample, with the tail. The limit is 1 or more, as at the calls.
unfoldable pub with_tail : List TrailPoint → List TrailPoint → List TrailPoint
unfolding back int_eq
with_tail sub result =
    let tail = back origin result in
    if length sub == 0
    then sub ++ tail ∷ []
    else if not (int_eq (back origin sub).ts_us tail.ts_us)
    then sub ++ tail ∷ []
    else sub

unfoldable pub subsample : ℕ → List TrailPoint → List TrailPoint
unfolding every with_tail
subsample max_out result =
    if ltb max_out (length result)
    then with_tail (every (length result / max_out + 1) 0 result) result
    else result

abbrev pub ends_kept : ℕ → List Bool
ends_kept n = set (set (replicate n false) 0 true) (n - 1) true

-- none where the recursion runs out of fuel.
unfoldable pub simplify :
    Metric → (epsilon max_out : ℕ) → List TrailPoint → Option (List TrailPoint)
unfolding douglas_peucker kept_points subsample
simplify mt epsilon max_out [] = some []
simplify mt epsilon max_out (p ∷ []) = some (p ∷ [])
simplify mt epsilon max_out (p ∷ q ∷ more) =
    let pts = p ∷ q ∷ more in
    let n = length pts in
    elim (douglas_peucker mt epsilon pts n 0 (n - 1) (ends_kept n)) [
      | none ↦ none
      | some keep ↦ some (subsample max_out (kept_points keep pts))
    ]

-- ===== src/Zoom/Simplified.antt =====
-- The simplified trail of kv8zoom/PathSimplifier.cpp.
use kv8_metrics.Prelude.{
  ℕ, zero, suc, ◌+◌, ◌-◌, ◌≤◌, ◌<◌, ◌≡◌, refl, sym, ap, ◌∙◌, inl, inr, Bool, true, false, some,
  List, ◌∷◌, length, length-set, get_elem?, get_elem?-set_self, get_elem?-set_ne, set, replicate,
  leb, Bool-cases, arith,
}
use native.Mathlib.Decide.{ℕ_discrete}
use kv8_metrics.Zoom.Trail.{
  TrailPoint, Metric, deviation, farthest, and_then, douglas_peucker, kept_points, subsample,
  ends_kept, simplify,
}
use kv8_metrics.Zoom.Farthest.{Ordered, Farthest, farthest-Farthest}

abbrev pub Kept : List Bool → ℕ → Type 0
Kept keep i = get_elem? keep i ≡ some true

-- The points between two indices are no farther than `epsilon` from the segments between kept ones.
pub data Close (mt : Metric) (epsilon : ℕ) (pts : List TrailPoint) (keep : List Bool)
    : ℕ → ℕ → Type 0 where
  near :
      {first last : ℕ}
      → ((i : ℕ)
          → first < i
          → i < last
          → mt.less epsilon (deviation mt epsilon pts first last i) ≡ false)
      → Close mt epsilon pts keep first last
  split :
      {first mid last : ℕ}
      → first < mid
      → mid < last
      → Kept keep mid
      → Close mt epsilon pts keep first mid
      → Close mt epsilon pts keep mid last
      → Close mt epsilon pts keep first last

module _ (mt : Metric) (epsilon : ℕ) (pts : List TrailPoint) where
  Close-mono :
      {keep keep' : List Bool} {first last : ℕ}
      → ((i : ℕ) → Kept keep i → Kept keep' i)
      → Close mt epsilon pts keep first last
      → Close mt epsilon pts keep' first last
  Close-mono more (Close.near h) = Close.near h
  Close-mono more (Close.split a b k l r) =
      Close.split a b (more _ k) (Close-mono more l) (Close-mono more r)

-- What the recursion makes of the marks between two indices.
pub record Marked (mt : Metric) (epsilon : ℕ) (pts : List TrailPoint) (first last : ℕ)
    (keep keep' : List Bool) : Type 0 where
  pub same_length : length keep' ≡ length keep
  pub more : (i : ℕ) → Kept keep i → Kept keep' i
  pub close : Close mt epsilon pts keep' first last

differ : true ≡ false → ⊥
differ e = cc

set-Kept : (keep : List Bool) (m i : ℕ) → m < length keep → Kept keep i → Kept (set keep m true) i
set-Kept keep m i h k = elim (ℕ_discrete m i) [
  | yes e ↦ rw (sym e) (get_elem?-set_self keep m true h)
  | no other ↦ get_elem?-set_ne keep true other ∙ k
]

module _ (mt : Metric) (epsilon : ℕ) (pts : List TrailPoint) (o : Ordered mt.less)
    (sane : mt.less epsilon 0 ≡ false) where
  module _ (fuel first last : ℕ) (keep : List Bool) where
    best : ℕ × ℕ
    best = farthest mt epsilon pts first last (last - (first + 1)) (first + 1) (0, first)

    found : Farthest mt epsilon pts o first last (last - (first + 1)) (first + 1) (0, first) best
    unfolding best
    found =
        farthest-Farthest mt epsilon pts o first last (last - (first + 1)) (first + 1) (0, first)
          o.zero_number

    no_points :
        leb last (first + 1) ≡ true
        → douglas_peucker mt epsilon pts (suc fuel) first last keep ≡ some keep
    unfolding douglas_peucker
    no_points e = rw (e, douglas_peucker) refl

    all_near :
        leb last (first + 1) ≡ false
        → mt.less epsilon best.0 ≡ false
        → douglas_peucker mt epsilon pts (suc fuel) first last keep ≡ some keep
    unfolding douglas_peucker best
    all_near e n = rw (e, n, douglas_peucker) refl

    in_halves :
        (left right : List Bool)
        → leb last (first + 1) ≡ false
        → mt.less epsilon best.0 ≡ true
        → douglas_peucker mt epsilon pts fuel first best.1 (set keep best.1 true) ≡ some left
        → douglas_peucker mt epsilon pts fuel best.1 last left ≡ some right
        → douglas_peucker mt epsilon pts (suc fuel) first last keep ≡ some right
    unfolding douglas_peucker best and_then
    in_halves left right e n l r = rw (e, n, l, r, douglas_peucker) refl

    -- The farthest point lies between the two.
    best_between :
        mt.less epsilon best.0 ≡ true → first + 1 < last → (first < best.1) × (best.1 < last)
    best_between far h = elim found.place [
      | inl e ↦ absurd (differ (sym far ∙ ap (mt.less epsilon) (ap (λ p. p.0) e) ∙ sane))
      | inr within ↦ (omega (arith, within.0), omega (arith, within.1, h))
    ]

  -- With fuel for the distance of the indices, the recursion ends.
  peucker-Marked :
      (fuel first last : ℕ) (keep : List Bool)
      → first ≤ last
      → last < fuel + first
      → last < length keep
      → (keep' : List Bool) × (douglas_peucker mt epsilon pts fuel first last keep ≡ some keep')
        × Marked mt epsilon pts first last keep keep'
  peucker-Marked zero first last keep order h room = absurd (omega arith)
  peucker-Marked (suc fuel) first last keep order h room =
      elim (Bool-cases (leb last (first + 1))) [
        | inl e ↦ (
          keep,
          no_points fuel first last keep e,
          record {
            same_length = refl;
            more = λ i k. k;
            close = Close.near (λ i h1 h2. absurd (ground (arith, e)));
          },
        )
        | inr e ↦
            let wide : first + 1 < last = ground (arith, e) in
            elim (Bool-cases (mt.less epsilon (best fuel first last keep).0)) [
              | inr n ↦
                  let f = found fuel first last keep in
                  (
                    keep,
                    all_near fuel first last keep e n,
                    record {
                      same_length = refl;
                      more = λ i k. k;
                      close = Close.near (λ i h1 h2.
                          o.not_less_trans epsilon (best fuel first last keep).0 _ f.is_number n
                            (f.seen i (omega arith) (omega (arith, wide))));
                    },
                  )
              | inl n ↦
                  let mid = (best fuel first last keep).1 in
                  let (above, below) = best_between fuel first last keep n wide in
                  let marked = set keep mid true in
                  let (left, l, ml) =
                    peucker-Marked fuel first mid marked (omega (arith, above))
                      (omega (arith, below, h)) (omega (arith, length-set keep mid true, below)) in
                  let (right, r, mr) =
                    peucker-Marked fuel mid last left (omega (arith, below))
                      (omega (arith, above, h))
                      (omega (arith, length-set keep mid true, ml.same_length)) in
                  let kept_mid =
                    mr.more mid
                      (ml.more mid (get_elem?-set_self keep mid true (omega (arith, below)))) in
                  (
                    right,
                    in_halves fuel first last keep left right e n l r,
                    record {
                      same_length = mr.same_length ∙ ml.same_length ∙ length-set keep mid true;
                      more = λ i k.
                          mr.more i (ml.more i (set-Kept keep mid i (omega (arith, below)) k));
                      close =
                          Close.split above below kept_mid
                            (Close-mono mt epsilon pts mr.more ml.close) mr.close;
                    },
                  )
            ]
      ]

length-replicate : (n : ℕ) (b : Bool) → length (replicate n b) ≡ n
length-replicate zero b = refl
length-replicate (suc n) b = ap suc (length-replicate n b)

length-ends_kept : (n : ℕ) → length (ends_kept n) ≡ n
length-ends_kept n =
    length-set (set (replicate n false) 0 true) (n - 1) true
    ∙ length-set (replicate n false) 0 true
    ∙ length-replicate n false

ends_kept-Kept_first : (n : ℕ) → 2 ≤ n → Kept (ends_kept n) 0
ends_kept-Kept_first n h =
    let marks = set (replicate n false) 0 true in
    let e : length marks ≡ n = length-set (replicate n false) 0 true ∙ length-replicate n false in
    set-Kept marks (n - 1) 0 (omega (arith, e))
      (get_elem?-set_self (replicate n false) 0 true (omega (arith, length-replicate n false)))

ends_kept-Kept_last : (n : ℕ) → 2 ≤ n → Kept (ends_kept n) (n - 1)
ends_kept-Kept_last n h =
    let marks = set (replicate n false) 0 true in
    let e : length marks ≡ n = length-set (replicate n false) 0 true ∙ length-replicate n false in
    get_elem?-set_self marks (n - 1) true (omega (arith, e))

simplify_lem :
    (mt : Metric) (epsilon max_out : ℕ) (p q : TrailPoint) (more : List TrailPoint)
    (keep : List Bool)
    → let pts = p ∷ q ∷ more in
      let n = length pts in
      douglas_peucker mt epsilon pts n 0 (n - 1) (ends_kept n) ≡ some keep
      → simplify mt epsilon max_out pts ≡ some (subsample max_out (kept_points keep pts))
unfolding simplify
simplify_lem mt epsilon max_out p q more keep e = rw (e, simplify) refl

-- For a trail of two points or more, an epsilon that is not below 0 and a comparison of doubles as the
-- standard has it: the recursion ends, the first and the last point are kept, and all points in between
-- are kept or no farther than epsilon from a segment between kept points around them; the result is the
-- kept points, subsampled if they are too many.
pub simplify-Close :
    (mt : Metric) (epsilon max_out : ℕ) (p q : TrailPoint) (more : List TrailPoint)
    → Ordered mt.less
    → mt.less epsilon 0 ≡ false
    → let pts = p ∷ q ∷ more in
      let n = length pts in
      (keep : List Bool) × (simplify mt epsilon max_out pts
        ≡ some (subsample max_out (kept_points keep pts)))
      × (length keep ≡ n)
      × Kept keep 0
      × Kept keep (n - 1)
      × Close mt epsilon pts keep 0 (n - 1)
simplify-Close mt epsilon max_out p q more o sane =
    let pts = p ∷ q ∷ more in
    let n = length pts in
    let (keep, e, m) =
      peucker-Marked mt epsilon pts o sane n 0 (n - 1) (ends_kept n) (omega arith) (omega arith)
        (omega (arith, length-ends_kept n)) in
    (
      keep,
      simplify_lem mt epsilon max_out p q more keep e,
      m.same_length ∙ length-ends_kept n,
      m.more 0 (ends_kept-Kept_first n (omega arith)),
      m.more (n - 1) (ends_kept-Kept_last n (omega arith)),
      m.close,
    )

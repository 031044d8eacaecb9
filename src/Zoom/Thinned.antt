-- ===== src/Zoom/Thinned.antt =====
-- The number of points that kv8zoom/PathSimplifier.cpp leaves.
use native.Mathlib.Nat.{lt-mul-div-succ, mul-le-mul_right}
use kv8_metrics.Prelude.{
  ℕ, zero, suc, ◌+◌, ◌-◌, ◌*◌, ◌/◌, ◌≤◌, ◌<◌, ◌≡◌, refl, inl, inr, false, some, List, [], ◌∷◌,
  length, length-append, ltb, Bool-cases, arith,
}
use native.Mathlib.Decide.{dec_lt}
use kv8_metrics.Zoom.Trail.{
  TrailPoint, Metric, origin, kept_points, every, back, with_tail, subsample, simplify,
}
use kv8_metrics.Zoom.Farthest.{Ordered}
use kv8_metrics.Zoom.Simplified.{simplify-Close}

length-every :
    (stride i : ℕ) (pts : List TrailPoint)
    → i < stride
    → length (every stride i pts) * stride + i < length pts + stride
unfolding every
length-every stride i [] h = omega arith
length-every stride zero (p ∷ pts) h =
    omega (arith, length-every stride (stride - 1) pts (omega arith))
length-every stride (suc i) (p ∷ pts) h = omega (arith, length-every stride i pts (omega arith))

length-with_tail : (sub result : List TrailPoint) → length (with_tail sub result) ≤ length sub + 1
unfolding with_tail
length-with_tail sub result = ground (arith, length-append sub (back origin result ∷ []))

few :
    (max_out n c : ℕ)
    → 1 ≤ max_out
    → c * (n / max_out + 1) + 0 < n + (n / max_out + 1)
    → c ≤ max_out
few max_out n c h few_enough = elim (dec_lt max_out c) [
  | no p ↦ omega arith
  | yes p ↦ absurd (
      omega (
        arith,
        few_enough,
        lt-mul-div-succ n h,
        mul-le-mul_right {m = suc max_out} {n = c} (n / max_out + 1) p,
      ))
]

length-subsample :
    (max_out : ℕ) (result : List TrailPoint)
    → 1 ≤ max_out
    → length (subsample max_out result) ≤ max_out + 1
unfolding subsample
length-subsample max_out result h = elim (Bool-cases (ltb max_out (length result))) [
  | inl e ↦ rw e (
      omega (
        arith,
        length-with_tail (every (length result / max_out + 1) 0 result) result,
        few max_out (length result) _ h
            (length-every (length result / max_out + 1) 0 result (omega arith)),
      ))
  | inr e ↦ rw e (ground (arith, e))
]

-- For a limit of 1 or more, an epsilon that is not below 0 and a comparison of doubles as the
-- standard has it: the simplified trail has at most one point more than the limit.
pub length-simplify :
    (mt : Metric) (epsilon max_out : ℕ) (pts : List TrailPoint)
    → Ordered mt.less
    → mt.less epsilon 0 ≡ false
    → 1 ≤ max_out
    → (out : List TrailPoint) × (simplify mt epsilon max_out pts ≡ some out)
      × (length out ≤ max_out + 1)
unfolding simplify
length-simplify mt epsilon max_out [] o sane h = ([], refl, omega arith)
length-simplify mt epsilon max_out (p ∷ []) o sane h = (p ∷ [], refl, omega arith)
length-simplify mt epsilon max_out (p ∷ q ∷ more) o sane h =
    let s = simplify-Close mt epsilon max_out p q more o sane in
    (subsample max_out (kept_points s.0 (p ∷ q ∷ more)), s.1, length-subsample max_out _ h)

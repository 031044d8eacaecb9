-- ===== src/Zoom/Farthest.antt =====
-- The loop of kv8zoom/PathSimplifier.cpp that looks for the farthest point.
use kv8_metrics.Prelude.{
  ℕ, zero, suc, ◌+◌, ◌≤◌, ◌<◌, ◌≡◌, refl, ap, subst, ◌∙◌, ◌⊎◌, inl, inr, Bool, true, false, List,
  Bool-cases, arith,
}
use native.Mathlib.Decide.{ℕ_discrete}
use kv8_metrics.Zoom.Trail.{TrailPoint, Metric, deviation, farthest}

-- What the comparison of doubles keeps to; `IsNumber` leaves out NaN.
pub record Ordered (less : ℕ → ℕ → Bool) : Type 1 where
  pub IsNumber : ℕ → Type 0
  pub zero_number : IsNumber 0
  pub less_number : {a b : ℕ} → less a b ≡ true → IsNumber b
  pub not_self : (a : ℕ) → less a a ≡ false
  pub not_both : {a b : ℕ} → less a b ≡ true → less b a ≡ false
  pub not_less_trans :
      (a b c : ℕ) → IsNumber b → less a b ≡ false → less b c ≡ false → less a c ≡ false

module _ (mt : Metric) (epsilon : ℕ) (pts : List TrailPoint) where
  module _ (o : Ordered mt.less) (first last : ℕ) where
    -- What the loop finds: a place among the points, or the start; no deviation seen is greater.
    pub record Farthest (count i : ℕ) (best found : ℕ × ℕ) : Type 0 where
      pub is_number : o.IsNumber found.0
      pub above : (v : ℕ) → mt.less best.0 v ≡ false → mt.less found.0 v ≡ false
      pub seen :
          (j : ℕ)
          → i ≤ j
          → j < i + count
          → mt.less found.0 (deviation mt epsilon pts first last j) ≡ false
      pub place : (found ≡ best) ⊎ ((i ≤ found.1) × (found.1 < i + count))

    Farthest-step :
        (count i : ℕ) (best next found : ℕ × ℕ)
        → ((v : ℕ) → mt.less best.0 v ≡ false → mt.less next.0 v ≡ false)
        → mt.less next.0 (deviation mt epsilon pts first last i) ≡ false
        → (next ≡ best) ⊎ (next.1 ≡ i)
        → Farthest count (i + 1) next found
        → Farthest (suc count) i best found
    Farthest-step count i best next found up here which q = record {
      is_number = q.is_number;
      above = λ v h. q.above v (up v h);
      seen = λ j h1 h2. elim (ℕ_discrete i j) [
        | yes e ↦
            q.above _
              (subst (λ k. mt.less next.0 (deviation mt epsilon pts first last k) ≡ false) e here)
        | no other ↦ q.seen j (omega arith) (omega arith)
      ];
      place = elim q.place [
        | inr within ↦ inr (omega (arith, within.0), omega (arith, within.1))
        | inl e ↦ elim which [
          | inl same ↦ inl (e ∙ same)
          | inr at_i ↦
              let at : found.1 ≡ i = ap (λ p. p.1) e ∙ at_i in
              inr (omega (arith, at), omega (arith, at))
        ]
      ];
    }

    pub farthest-Farthest :
        (count i : ℕ) (best : ℕ × ℕ)
        → o.IsNumber best.0
        → Farthest count i best (farthest mt epsilon pts first last count i best)
    unfolding farthest
    farthest-Farthest zero i best n = record {
      is_number = n;
      above = λ v h. h;
      seen = λ j h1 h2. absurd (omega arith);
      place = inl refl;
    }
    farthest-Farthest (suc count) i best n =
        let d = deviation mt epsilon pts first last i in
        elim (Bool-cases (mt.less best.0 d)) [
          | inl e ↦ rw e (
              Farthest-step count i best (d, i) _
                (λ v h. o.not_less_trans d best.0 v n (o.not_both e) h) (o.not_self d) (inr refl)
                (farthest-Farthest count (i + 1) (d, i) (o.less_number e)))
          | inr e ↦ rw e (
              Farthest-step count i best best _ (λ v h. h) e (inl refl)
                (farthest-Farthest count (i + 1) best n))
        ]

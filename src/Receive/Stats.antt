-- ===== src/Receive/Stats.antt =====
-- class StatsEngine of kv8scope/StatsEngine.{h,cpp}. A double is its bit pattern, and what the program
-- does with doubles is an argument. `Feed` has one caller, so that its loops on an atomic end with the
-- value that they store.
use Prim.Native.Nat.{bit_or}
use kv8_metrics.Prelude.{
  ℕ, ◌+◌, ◌*◌, ◌%◌, ◌^◌, Bool, true, false, Option, none, some, List, [], ◌∷◌, ◌++◌, ltb,
  if◌then◌else◌,
}
use kv8_metrics.Prelude.Assoc.{find, assign, nat_eq}

-- `<`, `+`, `-`, `*` and `/` of doubles, `(double)n`, and numeric_limits' max() and lowest().
pub record Reals : Type 0 where
  pub less : ℕ → ℕ → Bool
  pub plus : ℕ → ℕ → ℕ
  pub minus : ℕ → ℕ → ℕ
  pub times : ℕ → ℕ → ℕ
  pub over : ℕ → ℕ → ℕ
  pub of_nat : ℕ → ℕ
  pub max_value : ℕ
  pub lowest : ℕ

-- FullDurationStats
pub record FullDurationStats : Type 0 where
  pub count : ℕ
  pub min : ℕ
  pub max : ℕ
  pub sum : ℕ
  pub sum_sq : ℕ

unfoldable pub make_key : ℕ → ℕ → ℕ
make_key hash id = bit_or (hash * 2 ^ 16 % 2 ^ 64) id

module _ (re : Reals) where
  unfoldable pub no_samples : FullDurationStats
  no_samples = record { count = 0; min = re.max_value; max = re.lowest; sum = 0; sum_sq = 0 }

  -- `emplace` leaves a key that is there.
  unfoldable pub register_counter :
      ℕ → ℕ → List (ℕ × FullDurationStats) → List (ℕ × FullDurationStats)
  unfolding no_samples make_key find
  register_counter hash id stats =
      let key = make_key hash id in
      elim (find key stats) [ none ↦ stats ++ (key, no_samples) ∷ [] | some s ↦ stats ]

  unfoldable pub register_counter_if_new :
      ℕ → ℕ → List (ℕ × FullDurationStats) → List (ℕ × FullDurationStats) × Bool
  unfolding register_counter make_key find
  register_counter_if_new hash id stats = elim (find (make_key hash id) stats) [
    | none ↦ (register_counter hash id stats, true)
    | some s ↦ (stats, false)
  ]

  unfoldable pub atomic_min : ℕ → ℕ → ℕ
  atomic_min cur v = if re.less v cur then v else cur

  unfoldable pub atomic_max : ℕ → ℕ → ℕ
  atomic_max cur v = if re.less cur v then v else cur

  unfoldable pub accumulate : FullDurationStats → ℕ → FullDurationStats
  unfolding atomic_min atomic_max
  accumulate s v = record {
    count = (s.count + 1) % 2 ^ 64;
    min = atomic_min s.min v;
    max = atomic_max s.max v;
    sum = re.plus s.sum v;
    sum_sq = re.plus s.sum_sq (re.times v v);
  }

  unfoldable pub feed : ℕ → ℕ → ℕ → List (ℕ × FullDurationStats) → List (ℕ × FullDurationStats)
  unfolding accumulate make_key find assign
  feed hash id v stats =
      let key = make_key hash id in
      elim (find key stats) [ none ↦ stats | some s ↦ assign key (accumulate s v) stats ]

  -- The count, the least, the greatest and the average, and the function's result.
  unfoldable pub full_stats : FullDurationStats → (ℕ × ℕ × ℕ × ℕ) × Bool
  full_stats s = (
    (s.count, s.min, s.max, (if ltb 0 s.count then re.over s.sum (re.of_nat s.count) else 0)),
    ltb 0 s.count,
  )

  unfoldable pub get_full_stats :
      ℕ → ℕ → List (ℕ × FullDurationStats) → Option ((ℕ × ℕ × ℕ × ℕ) × Bool)
  unfolding full_stats make_key find
  get_full_stats hash id stats = elim (find (make_key hash id) stats) [
    | none ↦ none
    | some s ↦ some (full_stats s)
  ]

-- ===== src/Ring/Dynamic/Tests.antt =====
-- Runs of the ring of run-time capacity: four slots, with 7 and 8 stored across the wrap.
use kv8_metrics.Prelude.{ℕ, ◌≡◌, refl, [], ◌∷◌, take, drop, arith}
use kv8_metrics.Ring.Dynamic.{Ring, next_pow2, smear_all, smear, pop_batch}
use kv8_metrics.Ring.Dynamic.Refine.{IsValid, contents, dynamic_pop_batch_refines}

abbrev wrapped : Ring ℕ
wrapped = record { head = 5; tail = 3; items = 8 ∷ 0 ∷ 0 ∷ 7 ∷ []; cap = 4; mask = 3 }

wrapped-IsValid : IsValid wrapped
wrapped-IsValid = record {
  exponent = 2;
  power = refl;
  small = omega arith;
  masks = refl;
  ordered = omega arith;
  bounded = omega arith;
  counted = omega arith;
  slots = refl;
}

rounded : next_pow2 100 ≡ 128
unfolding next_pow2 smear_all smear
rounded = refl

abbrev zero_item : ℕ
zero_item = 0

dynamic_pop_batch_refines_example :
    let (r', out) = pop_batch 0 wrapped 1 in
    (out ≡ take 1 (contents 0 wrapped)) × (contents 0 r' ≡ drop 1 (contents 0 wrapped))
dynamic_pop_batch_refines_example = dynamic_pop_batch_refines 0 {r = wrapped} 1 wrapped-IsValid

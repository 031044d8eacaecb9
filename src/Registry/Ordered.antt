-- ===== src/Registry/Ordered.antt =====
-- The order in which a std::map is gone through: by ascending keys.
use kv8_metrics.Prelude.{Bool, true, false, ◌&&◌, ◌||◌, List, [], ◌∷◌, ltb, ◌==◌, if◌then◌else◌}
use kv8_metrics.Prelude.Bytes.{Bytes}

module _ {K V : Type 0} (less : K → K → Bool) where
  unfoldable pub insert_by_key : K × V → List (K × V) → List (K × V)
  insert_by_key kv [] = kv ∷ []
  insert_by_key kv (jw ∷ m) = if less kv.0 jw.0 then kv ∷ jw ∷ m else jw ∷ insert_by_key kv m

  unfoldable pub in_key_order : List (K × V) → List (K × V)
  unfolding insert_by_key
  in_key_order [] = []
  in_key_order (kv ∷ m) = insert_by_key kv (in_key_order m)

-- std::string's order on the bytes.
unfoldable pub bytes_less : Bytes → Bytes → Bool
bytes_less s [] = false
bytes_less [] (d ∷ t) = true
bytes_less (c ∷ s) (d ∷ t) = ltb c d || (c == d && bytes_less s t)

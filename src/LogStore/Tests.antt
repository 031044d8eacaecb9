-- ===== src/LogStore/Tests.antt =====
-- A store with one entry and an earlier one pending, and insertion sort in the place of `std::sort`.
use kv8_metrics.Prelude.{
  ℕ, ◌≤◌, ◌≡◌, refl, Bool, true, false, inr, List, [], ◌∷◌, ltb, if◌then◌else◌, arith,
}
use kv8_metrics.Prelude.Bytes.{Bytes, codes}
use kv8_metrics.Prelude.Assoc.{find}
use kv8_metrics.LogStore.{Entry, LogStore, drain_pending}
use kv8_metrics.Kv8log.Text.{hex8}
use kv8_metrics.LogStore.Laws.Order.{IsSorted, Shuffle, IsSort}
use kv8_metrics.LogStore.Laws.Sites.{Drained, drain_pending-Drained}

put : Entry → List Entry → List Entry
put e [] = e ∷ []
put e (x ∷ xs) = let later = put e xs in if ltb x.ts_ns e.ts_ns then (x ∷ later) else (e ∷ x ∷ xs)

sort : List Entry → List Entry
unfolding put
sort [] = []
sort (e ∷ es) = put e (sort es)

put-Shuffle : (e : Entry) (xs : List Entry) → Shuffle (put e xs) (e ∷ xs)
unfolding put
put-Shuffle e [] = Shuffle.same
put-Shuffle e (x ∷ xs) = put_later e x xs (ltb x.ts_ns e.ts_ns) (put-Shuffle e xs)
  where
    put_later :
        (e x : Entry) (xs : List Entry) (b : Bool)
        → Shuffle (put e xs) (e ∷ xs)
        → Shuffle (if b then (x ∷ put e xs) else (e ∷ x ∷ xs)) (e ∷ x ∷ xs)
    put_later e x xs true s = Shuffle.trans (Shuffle.keep s) Shuffle.swap
    put_later e x xs false s = Shuffle.same

-- `put` leaves the head, or puts the new entry there.
put_below :
    (x e : Entry) (xs : List Entry)
    → x.ts_ns ≤ e.ts_ns
    → IsSorted (x ∷ xs)
    → IsSorted (put e xs)
    → IsSorted (x ∷ put e xs)
unfolding put
put_below x e [] h s t = (h, tt)
put_below x e (y ∷ ys) h s t = go (ltb y.ts_ns e.ts_ns) t
  where
    go :
        (b : Bool)
        → IsSorted (if b then (y ∷ put e ys) else (e ∷ y ∷ ys))
        → IsSorted (x ∷ (if b then (y ∷ put e ys) else (e ∷ y ∷ ys)))
    go true t = (s.0, t)
    go false t = (h, t)

tail-IsSorted : (x : Entry) (xs : List Entry) → IsSorted (x ∷ xs) → IsSorted xs
tail-IsSorted x [] s = tt
tail-IsSorted x (y ∷ ys) s = s.1

put-IsSorted : (e : Entry) (xs : List Entry) → IsSorted xs → IsSorted (put e xs)
unfolding put
put-IsSorted e [] s = tt
put-IsSorted e (x ∷ xs) s =
    go (ltb x.ts_ns e.ts_ns)
      (λ t. put_below x e xs (ground arith) s (put-IsSorted e xs (tail-IsSorted x xs s)))
      (λ f. ground arith)
  where
    go :
        (b : Bool)
        → (b ≡ true → IsSorted (x ∷ put e xs))
        → (b ≡ false → e.ts_ns ≤ x.ts_ns)
        → IsSorted (if b then (x ∷ put e xs) else (e ∷ x ∷ xs))
    go true yes_case no_case = yes_case refl
    go false yes_case no_case = (no_case refl, s)

sort-IsSort : IsSort sort
unfolding sort
sort-IsSort = record { sorted = ordered; shuffled = same_entries }
  where
    ordered : (es : List Entry) → IsSorted (sort es)
    ordered [] = tt
    ordered (e ∷ es) = put-IsSorted e (sort es) (ordered es)

    same_entries : (es : List Entry) → Shuffle (sort es) es
    same_entries [] = Shuffle.same
    same_entries (e ∷ es) = Shuffle.trans (put-Shuffle e (sort es)) (Shuffle.keep (same_entries es))

abbrev entry : ℕ → Bool → Entry
entry ts known = record {
  ts_ns = ts;
  level = 1;
  thread_id = 4;
  cpu_id = 2;
  line = 3;
  file = codes "a.c";
  func = codes "f";
  message = codes "say \"hi\"";
  site_hash = 7;
  site_resolved = known;
}

-- An entry whose call site is not known yet.
abbrev waiting : Entry
waiting = record (entry 20 false) { file = codes "<site:00000007>"; func = []; line = 0 }

abbrev store : LogStore
store = record {
  entries = waiting ∷ [];
  sites = [];
  level_mask = 0x1F;
  filter = [];
  pending_entries = entry 10 false ∷ [];
  pending_sites = (7, record { file = codes "b.c"; func = codes "g"; fmt = []; line = 9 }) ∷ [];
}

drain_pending-Drained_example : Drained store (drain_pending sort store)
unfolding find hex8
drain_pending-Drained_example = drain_pending-Drained store sort-IsSort tt (
  inr (record {
    same_time = refl;
    same_level = refl;
    same_thread = refl;
    same_cpu = refl;
    same_message = refl;
    same_hash = refl;
    site = (refl, refl, refl, refl);
  }),
  tt,
)

abbrev iso : ℕ → Bytes
iso ts = codes "1970-01-01T00:00:00.000000Z"

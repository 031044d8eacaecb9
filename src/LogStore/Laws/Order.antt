-- ===== src/LogStore/Laws/Order.antt =====
-- Draining keeps the entries ordered by time, and loses none.
use kv8_metrics.Prelude.{
  ℕ, suc, ◌-◌, ◌≤◌, ◌≡◌, refl, subst, Option, none, some, sym, ap, ◌∙◌, true, Bool-cases, inl, inr,
  List, [], ◌∷◌, ◌++◌, map, append-nil, length, drop, if◌then◌else◌, arith,
}
use kv8_metrics.Prelude.Assoc.{find, nat_eq}
use kv8_metrics.Wire.LogSite.{LogSiteInfo}
use kv8_metrics.LogStore.{
  Entry, LogStore, resolve, resolve_with, resolve_again, in_order, drain_sites, append_sorted,
  drain_entries,
}

abbrev pub Sites : Type 0
Sites = List (ℕ × LogSiteInfo)

-- Each entry is at least as late as the one before it.
abbrev pub IsSorted : List Entry → Type 0
IsSorted [] = Unit {0}
IsSorted (a ∷ []) = Unit {0}
IsSorted (a ∷ b ∷ es) = (a.ts_ns ≤ b.ts_ns) × IsSorted (b ∷ es)

-- The same entries in another order.
pub data Shuffle : List Entry → List Entry → Type 0 where
  same : {es : List Entry} → Shuffle es es
  keep : {e : Entry} {xs ys : List Entry} → Shuffle xs ys → Shuffle (e ∷ xs) (e ∷ ys)
  swap : {a b : Entry} {es : List Entry} → Shuffle (a ∷ b ∷ es) (b ∷ a ∷ es)
  trans : {xs ys zs : List Entry} → Shuffle xs ys → Shuffle ys zs → Shuffle xs zs

-- What `std::sort` by time promises; it need not be stable.
pub record IsSort (sort : List Entry → List Entry) : Type 0 where
  pub sorted : (es : List Entry) → IsSorted (sort es)
  pub shuffled : (es : List Entry) → Shuffle (sort es) es

in_order-IsSorted : (es : List Entry) → in_order es ≡ true → IsSorted es
unfolding in_order
in_order-IsSorted [] h = tt
in_order-IsSorted (a ∷ []) h = tt
in_order-IsSorted (a ∷ b ∷ es) h = (ground arith, in_order-IsSorted (b ∷ es) (ground arith))

-- It is enough to look from the last old entry on.
append-IsSorted :
    (old new : List Entry)
    → IsSorted old
    → in_order (drop (length old - 1) (old ++ new)) ≡ true
    → IsSorted (old ++ new)
append-IsSorted [] new s h = in_order-IsSorted new h
append-IsSorted (a ∷ []) new s h = in_order-IsSorted (a ∷ new) h
append-IsSorted (a ∷ b ∷ es) new s h = (s.0, append-IsSorted (b ∷ es) new s.1 (shifted ∙ h))
  where
    shifted :
        in_order (drop (suc (length es) - 1) (b ∷ (es ++ new)))
        ≡ in_order (drop (suc (suc (length es)) - 1) (a ∷ b ∷ (es ++ new)))
    shifted =
        ap (λ k. in_order (drop k (a ∷ b ∷ (es ++ new)))) {x = suc (suc (length es) - 1)}
          {y = suc (suc (length es)) - 1} (omega arith)

resolve_with-ts : (found : Option LogSiteInfo) (e : Entry) → (resolve_with found e).ts_ns ≡ e.ts_ns
unfolding resolve_with
resolve_with-ts none e = refl
resolve_with-ts (some s) e = refl

again : Sites → Entry → Entry
again sites e = if e.site_resolved then e else resolve sites e

again-ts : (sites : Sites) (e : Entry) → (again sites e).ts_ns ≡ e.ts_ns
unfolding again resolve
again-ts sites e = ground (arith, resolve_with-ts (find e.site_hash sites) e)

map-IsSorted :
    (f : Entry → Entry)
    → ((e : Entry) → (f e).ts_ns ≡ e.ts_ns)
    → (es : List Entry) → IsSorted es
    → IsSorted (map f es)
map-IsSorted f k [] s = tt
map-IsSorted f k (a ∷ []) s = tt
map-IsSorted f k (a ∷ b ∷ es) s = (omega (arith, k a, k b, s.0), map-IsSorted f k (b ∷ es) s.1)

pub drain_sites-IsSorted : (st : LogStore) → IsSorted st.entries → IsSorted (drain_sites st).entries
unfolding drain_sites resolve_again again
drain_sites-IsSorted st s =
    elim st.pending_sites
      as (λ p. IsSorted (drain_sites (record st { pending_sites = p })).entries) [
        | [] ↦ s
        | q ∷ qs ↦ map-IsSorted _ (again-ts _) st.entries s
      ]

pub drain_sites-pending : (st : LogStore) → (drain_sites st).pending_entries ≡ st.pending_entries
unfolding drain_sites
drain_sites-pending st =
    elim st.pending_sites
      as (λ p.
        (drain_sites (record st { pending_sites = p })).pending_entries ≡ st.pending_entries) [
          | [] ↦ refl
          | q ∷ qs ↦ refl
        ]

module _ {sort : List Entry → List Entry} (h : IsSort sort) where
  append_sorted_lem :
      (old new : List Entry)
      → IsSorted old
      → IsSorted (append_sorted sort old new) × Shuffle (append_sorted sort old new) (old ++ new)
  unfolding append_sorted
  append_sorted_lem old new s = elim (Bool-cases (in_order (drop (length old - 1) (old ++ new)))) [
    | inl t ↦ rw t (append-IsSorted old new s t, Shuffle.same)
    | inr f ↦ rw f (h.sorted (old ++ new), h.shuffled (old ++ new))
  ]

  pub drain_entries_lem :
      (st : LogStore)
      → IsSorted st.entries
      → let st' = drain_entries sort st in
        IsSorted st'.entries
        × Shuffle st'.entries (st.entries ++ map (resolve st.sites) st.pending_entries)
        × (st'.pending_entries ≡ [])
  unfolding drain_entries
  drain_entries_lem st s =
      elim st.pending_entries
        as (λ p.
          let st' = drain_entries sort (record st { pending_entries = p }) in
          IsSorted st'.entries
          × Shuffle st'.entries (st.entries ++ map (resolve st.sites) p)
          × (st'.pending_entries ≡ [])) [
            | [] ↦ (s, subst (Shuffle st.entries) (sym (append-nil st.entries)) Shuffle.same, refl)
            | e ∷ es ↦
                let (sorted, shuffled) =
                  append_sorted_lem st.entries (map (resolve st.sites) (e ∷ es)) s in
                (sorted, shuffled, refl)
          ]

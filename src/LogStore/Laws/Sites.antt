-- ===== src/LogStore/Laws/Sites.antt =====
-- What a drain makes of the entries and of the call sites.
use kv8_metrics.Prelude.{
  ℕ, ◌≡◌, refl, sym, ap, subst, ◌∙◌, Bool, true, false, Option, none, some, ◌⊎◌, inl, inr,
  Bool-cases, List, [], ◌∷◌, ◌++◌, map, ◌==◌, if◌then◌else◌,
}
use kv8_metrics.Prelude.Bytes.{codes}
use kv8_metrics.Prelude.Assoc.{find, assign, find-assign, nat_eq}
use kv8_metrics.Wire.LogSite.{LogSiteInfo}
use kv8_metrics.Kv8log.Text.{hex8}
use kv8_metrics.LogStore.{
  Entry, LogStore, resolve, resolve_with, resolve_again, assign_sites, drain_sites, drain_entries,
  drain_pending, seed_log_sites,
}
use kv8_metrics.LogStore.Laws.Order.{
  Sites, IsSorted, Shuffle, IsSort, drain_sites-IsSorted, drain_sites-pending, drain_entries_lem,
}

-- The entry shows the call site, or a placeholder where there is none.
abbrev pub Shows : Option LogSiteInfo → Entry → Type 0
Shows (some site) e =
    (e.file ≡ site.file) × (e.func ≡ site.func) × (e.line ≡ site.line) × (e.site_resolved ≡ true)
Shows none e =
    (e.file ≡ codes "<site:" ++ (hex8 e.site_hash ++ codes ">"))
    × (e.func ≡ [])
    × (e.line ≡ 0)
    × (e.site_resolved ≡ false)

-- The second entry is the first one, with what is known of its call site.
pub record Filled (sites : Sites) (e e' : Entry) : Type 0 where
  pub same_time : e'.ts_ns ≡ e.ts_ns
  pub same_level : e'.level ≡ e.level
  pub same_thread : e'.thread_id ≡ e.thread_id
  pub same_cpu : e'.cpu_id ≡ e.cpu_id
  pub same_message : e'.message ≡ e.message
  pub same_hash : e'.site_hash ≡ e.site_hash
  pub site : Shows (find e.site_hash sites) e'

-- An entry that shows its call site stays as it is.
abbrev pub Kept : Sites → Entry → Entry → Type 0
Kept sites e e' =
    ((e.site_resolved ≡ true) × (e' ≡ e)) ⊎ ((e.site_resolved ≡ false) × Filled sites e e')

abbrev pub Each : (Entry → Entry → Type 0) → List Entry → List Entry → Type 0
Each R [] [] = Unit {0}
Each R [] (y ∷ ys) = ⊥
Each R (x ∷ xs) [] = ⊥
Each R (x ∷ xs) (y ∷ ys) = R x y × Each R xs ys

-- An entry is marked as showing its call site, or shows what is known of it.
abbrev pub Settled : Sites → Entry → Type 0
Settled sites e = (e.site_resolved ≡ true) ⊎ Filled sites e e

abbrev pub AllSettled : Sites → List Entry → Type 0
AllSettled sites [] = Unit {0}
AllSettled sites (e ∷ es) = Settled sites e × AllSettled sites es

-- The last call site with the hash, of those that are pending, or else the one that was known.
abbrev pub newest : ℕ → Sites → Option LogSiteInfo → Option LogSiteInfo
newest h [] known = known
newest h ((k, s) ∷ sites) known = newest h sites (if k == h then some s else known)

pub record Drained (st st' : LogStore) : Type 0 where
  pub sorted : IsSorted st'.entries
  pub old : List Entry
  pub new : List Entry
  pub kept : Each (Kept st'.sites) st.entries old
  pub filled : Each (Filled st'.sites) st.pending_entries new
  pub shuffled : Shuffle st'.entries (old ++ new)
  pub known : (h : ℕ) → find h st'.sites ≡ newest h st.pending_sites (find h st.sites)
  pub settled : AllSettled st'.sites st'.entries
  pub no_entries : st'.pending_entries ≡ []

shown :
    (sites : Sites) (e : Entry) (o : Option LogSiteInfo)
    → find e.site_hash sites ≡ o
    → Filled sites e (resolve_with o e)
unfolding resolve_with
shown sites e none h = record {
  same_time = refl;
  same_level = refl;
  same_thread = refl;
  same_cpu = refl;
  same_message = refl;
  same_hash = refl;
  site = subst (λ o. Shows o (resolve_with none e)) (sym h) (refl, refl, refl, refl);
}
shown sites e (some s) h = record {
  same_time = refl;
  same_level = refl;
  same_thread = refl;
  same_cpu = refl;
  same_message = refl;
  same_hash = refl;
  site = subst (λ o. Shows o (resolve_with (some s) e)) (sym h) (refl, refl, refl, refl);
}

resolve-Filled : (sites : Sites) (e : Entry) → Filled sites e (resolve sites e)
unfolding resolve
resolve-Filled sites e = shown sites e (find e.site_hash sites) refl

map-Filled : (sites : Sites) (es : List Entry) → Each (Filled sites) es (map (resolve sites) es)
map-Filled sites [] = tt
map-Filled sites (e ∷ es) = (resolve-Filled sites e, map-Filled sites es)

again-Kept :
    (sites : Sites) (e : Entry) (b : Bool)
    → e.site_resolved ≡ b
    → Kept sites e (if b then e else resolve sites e)
again-Kept sites e true h = inl (h, refl)
again-Kept sites e false h = inr (h, resolve-Filled sites e)

resolve_again-Kept :
    (sites : Sites) (es : List Entry) → Each (Kept sites) es (resolve_again sites es)
unfolding resolve_again
resolve_again-Kept sites [] = tt
resolve_again-Kept sites (e ∷ es) =
    (again-Kept sites e e.site_resolved refl, resolve_again-Kept sites es)

Settled-Kept : (sites : Sites) (e : Entry) → Settled sites e → Kept sites e e
Settled-Kept sites e h = elim (Bool-cases e.site_resolved) [
  | inl t ↦ inl (t, refl)
  | inr f ↦ inr (f, elim h [ inl t ↦ cc (t, f) | inr same ↦ same ])
]

AllSettled-Kept : (sites : Sites) (es : List Entry) → AllSettled sites es → Each (Kept sites) es es
AllSettled-Kept sites [] h = tt
AllSettled-Kept sites (e ∷ es) h = (Settled-Kept sites e h.0, AllSettled-Kept sites es h.1)

Filled-Settled : (sites : Sites) (e e' : Entry) → Filled sites e e' → Settled sites e'
Filled-Settled sites e e' f = inr (record {
  same_time = refl;
  same_level = refl;
  same_thread = refl;
  same_cpu = refl;
  same_message = refl;
  same_hash = refl;
  site = subst (λ h. Shows (find h sites) e') (sym f.same_hash) f.site;
})

Kept-Settled : (sites : Sites) (e e' : Entry) → Kept sites e e' → Settled sites e'
Kept-Settled sites e e' (inl (t, same)) = inl (ap (λ x. x.site_resolved) same ∙ t)
Kept-Settled sites e e' (inr (u, f)) = Filled-Settled sites e e' f

Each-Settled :
    (sites : Sites) (R : Entry → Entry → Type 0)
    → ((e e' : Entry) → R e e' → Settled sites e')
    → (xs ys : List Entry) → Each R xs ys
    → AllSettled sites ys
Each-Settled sites R f [] [] h = tt
Each-Settled sites R f [] (y ∷ ys) h = absurd h
Each-Settled sites R f (x ∷ xs) [] h = absurd h
Each-Settled sites R f (x ∷ xs) (y ∷ ys) h = (f x y h.0, Each-Settled sites R f xs ys h.1)

append-AllSettled :
    (sites : Sites) (xs ys : List Entry)
    → AllSettled sites xs
    → AllSettled sites ys
    → AllSettled sites (xs ++ ys)
append-AllSettled sites [] ys hx hy = hy
append-AllSettled sites (x ∷ xs) ys hx hy = (hx.0, append-AllSettled sites xs ys hx.1 hy)

Shuffle-AllSettled :
    (sites : Sites) {xs ys : List Entry} → Shuffle xs ys → AllSettled sites ys → AllSettled sites xs
Shuffle-AllSettled sites Shuffle.same h = h
Shuffle-AllSettled sites (Shuffle.keep s) h = (h.0, Shuffle-AllSettled sites s h.1)
Shuffle-AllSettled sites Shuffle.swap h = (h.1.0, (h.0, h.1.1))
Shuffle-AllSettled sites (Shuffle.trans s t) h =
    Shuffle-AllSettled sites s (Shuffle-AllSettled sites t h)

assign_sites-newest :
    (new known : Sites) (h : ℕ) → find h (assign_sites new known) ≡ newest h new (find h known)
unfolding assign_sites
assign_sites-newest [] known h = refl
assign_sites-newest ((k, s) ∷ new) known h =
    assign_sites-newest new (assign k s known) h ∙ ap (newest h new) (find-assign k h s known)

-- The first half of a drain.
record SitesDrained (st st' : LogStore) : Type 0 where
  kept : Each (Kept st'.sites) st.entries st'.entries
  known : (h : ℕ) → find h st'.sites ≡ newest h st.pending_sites (find h st.sites)

drain_sites-SitesDrained :
    (st : LogStore) → AllSettled st.sites st.entries → SitesDrained st (drain_sites st)
unfolding drain_sites
drain_sites-SitesDrained st h =
    elim st.pending_sites
      as (λ p.
        SitesDrained (record st { pending_sites = p })
          (drain_sites (record st { pending_sites = p }))) [
            | [] ↦ record { kept = AllSettled-Kept st.sites st.entries h; known = λ hash. refl }
            | q ∷ qs ↦ record {
              kept = resolve_again-Kept _ st.entries;
              known = assign_sites-newest (q ∷ qs) st.sites;
            }
          ]

drain_entries-sites :
    (sort : List Entry → List Entry) (st : LogStore) → (drain_entries sort st).sites ≡ st.sites
unfolding drain_entries
drain_entries-sites sort st =
    elim st.pending_entries
      as (λ p. (drain_entries sort (record st { pending_entries = p })).sites ≡ st.sites) [
        | [] ↦ refl
        | q ∷ qs ↦ refl
      ]

-- For any sort by time, a store that is ordered by time, and in which each entry that is not marked as showing
-- its call site shows what is known of it: after a drain the store is so again and ordered, whether or not a
-- record arrived late, and no entry is pending. Its call sites are the newest of those pending, or else those
-- it had. Its entries are, in some order, the old ones, those that were not marked with their call site filled in
-- where it is known now, and all pending ones, with theirs; nothing else of an entry changes.
pub drain_pending-Drained :
    {sort : List Entry → List Entry} (st : LogStore)
    → IsSort sort
    → IsSorted st.entries
    → AllSettled st.sites st.entries
    → Drained st (drain_pending sort st)
unfolding drain_pending
drain_pending-Drained {sort} st is ordered settled =
    let mid = drain_sites st in
    let d = drain_sites-SitesDrained st settled in
    let (sorted, shuffled, done) = drain_entries_lem is mid (drain_sites-IsSorted st ordered) in
    let same = sym (drain_entries-sites sort mid) in
    let new = map (resolve mid.sites) mid.pending_entries in
    let filled = map-Filled mid.sites mid.pending_entries in
    record {
      sorted = sorted;
      old = mid.entries;
      new = new;
      kept = subst (λ sites. Each (Kept sites) st.entries mid.entries) same d.kept;
      filled =
          subst (λ es. Each (Filled (drain_entries sort mid).sites) es new) (drain_sites-pending st)
            (subst (λ sites. Each (Filled sites) mid.pending_entries new) same filled);
      shuffled = shuffled;
      known = λ h. ap (find h) (sym same) ∙ d.known h;
      settled =
          subst (λ sites. AllSettled sites (drain_entries sort mid).entries) same
            (Shuffle-AllSettled mid.sites shuffled (
              append-AllSettled mid.sites mid.entries new
                (Each-Settled mid.sites (Kept mid.sites) (Kept-Settled mid.sites) st.entries
                  mid.entries d.kept)
                (Each-Settled mid.sites (Filled mid.sites) (Filled-Settled mid.sites)
                  mid.pending_entries new filled)));
      no_entries = done;
    }

-- Seeding settles the entries of any store.
pub seed_log_sites-AllSettled :
    (new : Sites) (st : LogStore)
    → let st' = seed_log_sites new st in AllSettled st'.sites st'.entries
unfolding seed_log_sites
seed_log_sites-AllSettled new st =
    let sites = (seed_log_sites new st).sites in
    Each-Settled sites (Kept sites) (Kept-Settled sites) st.entries _
      (resolve_again-Kept _ st.entries)

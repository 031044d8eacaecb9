-- ===== src/Registry/Laws/Finish.antt =====
-- What the end of `DiscoverSessions` of libs/libkv8/src/Kv8Consumer.cpp makes of a scan.
use mathlib.Core.List.{Memᴰ}
use kv8_metrics.Prelude.{
  ℕ, ◌≡◌, inl, inr, refl, ap, ◌∙◌, Bool, true, false, not, ◌&&◌, Option, none, List, [], ◌∷◌, map,
  Bool-cases, if◌then◌else◌, arith,
}
use kv8_metrics.Prelude.Bytes.{Bytes}
use kv8_metrics.Prelude.Assoc.{find, member, bytes_beq, bytes_beq_iff, bytes_eq, nat_eq}
use kv8_metrics.Registry.{CounterMeta, SessionMeta, Scan, is_empty}
use kv8_metrics.Registry.Resolve.{resolve_schemas}
use kv8_metrics.Registry.Virtual.{surviving, with_sites, synthesized, finish_scan}

-- What `udtFeeds` collects of one bucket: the feeds that have their schema.
abbrev pub IsFeed : CounterMeta → Type 0
IsFeed cm = (cm.is_udt_feed ≡ true) × (is_empty cm.schema_json ≡ false)

is_feed : CounterMeta → Bool
is_feed cm = cm.is_udt_feed && not (is_empty cm.schema_json)

find-surviving :
    (prefix : Bytes) (deleted : List Bytes) (m : List (Bytes × SessionMeta))
    → find prefix (surviving deleted m) ≡ (if member prefix deleted then none else find prefix m)
unfolding find surviving
find-surviving prefix deleted [] = ground arith
find-surviving prefix deleted ((k, sm) ∷ m) = elim (Bool-cases (bytes_beq k prefix)) [
  | inl same ↦ ground (
    arith,
    find-surviving prefix deleted m,
    same,
    ap (λ q. member q deleted) ((bytes_beq_iff k prefix).0 same),
  )
  | inr other ↦ ground (arith, find-surviving prefix deleted m, other)
]

-- An entry of a map that is gone through and changed by `g`.
module _ (prefix : Bytes) (g : SessionMeta → SessionMeta) where
  find-map-none :
      (m : List (Bytes × SessionMeta))
      → find prefix m ≡ none
      → find prefix (map (λ (k, s). (k, g s)) m) ≡ none
  unfolding find
  find-map-none [] e = refl
  find-map-none ((k, s) ∷ m) e = ground (arith, find-map-none m)

-- A deleted session is never found.
pub finish_scan-deleted :
    (strtod : Bytes → Option (ℕ × Bytes)) (st : Scan) (prefix : Bytes)
    → member prefix st.deleted ≡ true
    → find prefix (finish_scan strtod st) ≡ none
unfolding finish_scan
finish_scan-deleted strtod st prefix gone = find-map-none prefix (with_sites st.sites) _ (
    find-surviving prefix st.deleted
      (synthesized st.schemas (resolve_schemas strtod st.schemas).hash_to_resolved st.sessions)
    ∙ rw gone refl)

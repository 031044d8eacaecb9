-- ===== src/Registry/Virtual.antt =====
-- The rest of `DiscoverSessions` of libs/libkv8/src/Kv8Consumer.cpp behind the scan: a virtual counter
-- for each field of each feed, the removal of the deleted sessions, and the call sites.
use kv8_metrics.Prelude.{
  ℕ, suc, ◌+◌, ◌*◌, ◌%◌, ◌^◌, true, false, not, ◌&&◌, Option, none, some, List, [], ◌∷◌, ◌++◌, map,
  ltb, if◌then◌else◌,
}
use Prim.Native.Nat.{bit_and}
use kv8_metrics.Prelude.Bytes.{Bytes, codes}
use kv8_metrics.Prelude.Assoc.{find, assign, member, bytes_eq, nat_eq}
use kv8_metrics.Udt.Types.{SchemaField, ResolvedSchema}
use kv8_metrics.Udt.Decode.{field_code}
use kv8_metrics.Wire.LogSite.{LogSiteInfo}
use kv8_metrics.Registry.{CounterMeta, SessionMeta, Scan, push_back, is_empty}
use kv8_metrics.Registry.Ordered.{in_key_order, bytes_less}
use kv8_metrics.Registry.Resolve.{resolve_schemas}

-- `fallbackFreq`, `fallbackTimer`, `fallbackHi` and `fallbackLo`.
pub record Timing : Type 0 where
  pub frequency : ℕ
  pub timer_value : ℕ
  pub time_hi : ℕ
  pub time_lo : ℕ

unfoldable pub or_zero : Option ℕ → ℕ
or_zero none = 0
or_zero (some v) = v

-- The timing of the first topic that has a frequency.
unfoldable pub first_timing : List (Bytes × ℕ) → SessionMeta → Timing
unfolding find or_zero
first_timing [] sm = record { frequency = 0; timer_value = 0; time_hi = 0; time_lo = 0 }
first_timing ((topic, frequency) ∷ _) sm = record {
  frequency = frequency;
  timer_value = or_zero (find topic sm.topic_to_timer_value);
  time_hi = or_zero (find topic sm.topic_to_time_hi);
  time_lo = or_zero (find topic sm.topic_to_time_lo);
}

unfoldable pub fallback_timing : SessionMeta → Timing
unfolding first_timing in_key_order bytes_less
fallback_timing sm = first_timing (in_key_order bytes_less sm.topic_to_frequency) sm

-- The feeds with a schema in one bucket, and in all of them.
unfoldable pub feeds_of : ℕ → List CounterMeta → List (ℕ × CounterMeta)
unfolding is_empty
feeds_of hash [] = []
feeds_of hash (cm ∷ cms) =
    let more = feeds_of hash cms in
    if cm.is_udt_feed && not (is_empty cm.schema_json) then (hash, cm) ∷ more else more

unfoldable pub udt_feeds : List (ℕ × List CounterMeta) → List (ℕ × CounterMeta)
unfolding feeds_of
udt_feeds [] = []
udt_feeds ((hash, cms) ∷ m) = feeds_of hash cms ++ udt_feeds m

-- `idBase + (fIdx & 0x3F)`
unfoldable pub virtual_id : (fi field_index : ℕ) → ℕ
virtual_id fi field_index =
    ((0x1000 + bit_and fi 0x3F * 2 ^ 6) % 2 ^ 16 + bit_and field_index 0x3F) % 2 ^ 16

unfoldable pub virtual_counter :
    (fi : ℕ) → CounterMeta → (field_index : ℕ) → SchemaField → CounterMeta
unfolding virtual_id field_code
virtual_counter fi feed field_index f = record {
  name = feed.name ++ codes "/" ++ f.name;
  counter_id = virtual_id fi field_index;
  flags = 1;
  min_bits = f.min_val;
  alarm_min = f.min_val;
  max_bits = f.max_val;
  alarm_max = f.max_val;
  data_topic = feed.data_topic;
  is_udt_feed = false;
  schema_hash = 0;
  schema_json = [];
  is_virtual_field = true;
  field_offset = f.offset;
  field_type = field_code f.type;
  display_name = f.display_name;
}

-- The loop over the fields, from `field_index` on.
unfoldable pub push_fields :
    (hash fi : ℕ)
    → CounterMeta
    → (field_index : ℕ) → List SchemaField
    → List (ℕ × List CounterMeta)
    → List (ℕ × List CounterMeta)
unfolding virtual_counter push_back
push_fields hash fi feed field_index [] buckets = buckets
push_fields hash fi feed field_index (f ∷ fs) buckets =
    push_fields hash fi feed (suc field_index) fs
      (push_back hash (virtual_counter fi feed field_index f) buckets)

-- Timing for the topic of a feed, when it has none.
unfoldable pub copy_timing : Timing → Bytes → SessionMeta → SessionMeta
unfolding find assign
copy_timing t topic sm =
    let copied = record sm {
      topic_to_frequency = assign topic t.frequency sm.topic_to_frequency;
      topic_to_timer_value = assign topic t.timer_value sm.topic_to_timer_value;
      topic_to_time_hi = assign topic t.time_hi sm.topic_to_time_hi;
      topic_to_time_lo = assign topic t.time_lo sm.topic_to_time_lo;
    } in
    if ltb 0 t.frequency
    then elim (find topic sm.topic_to_frequency) [ none ↦ copied | some _ ↦ sm ]
    else sm

unfoldable pub add_group : ℕ → Bytes → SessionMeta → SessionMeta
unfolding find assign
add_group hash name sm = record sm {
  hash_to_group = elim (find hash sm.hash_to_group) [
    | none ↦ assign hash name sm.hash_to_group
    | some _ ↦ sm.hash_to_group
  ];
}

-- The body of the loop over the feeds, for a feed whose schema has fields.
unfoldable pub add_fields :
    Timing → ℕ → ℕ × CounterMeta → List SchemaField → SessionMeta → SessionMeta
unfolding add_group copy_timing push_fields
add_fields t fi (hash, feed) fields sm =
    let timed = copy_timing t feed.data_topic (add_group hash feed.name sm) in
    record timed { hash_to_counters = push_fields hash fi feed 0 fields timed.hash_to_counters }

-- `if (rs.fields.empty()) continue;`
unfoldable pub add_schema :
    Timing → ℕ → ℕ × CounterMeta → List SchemaField → SessionMeta → SessionMeta
unfolding add_fields
add_schema t fi feed [] sm = sm
add_schema t fi feed (f ∷ fs) sm = add_fields t fi feed (f ∷ fs) sm

-- `if (sit == hashToResolved.end()) continue;`
unfoldable pub add_feed :
    Timing → List (ℕ × ResolvedSchema) → ℕ → ℕ × CounterMeta → SessionMeta → SessionMeta
unfolding find add_schema
add_feed t resolved fi (hash, feed) sm = elim (find hash resolved) [
  | none ↦ sm
  | some r ↦ add_schema t fi (hash, feed) r.fields sm
]

unfoldable pub add_feeds :
    Timing → List (ℕ × ResolvedSchema) → ℕ → List (ℕ × CounterMeta) → SessionMeta → SessionMeta
unfolding add_feed
add_feeds t resolved fi [] sm = sm
add_feeds t resolved fi (feed ∷ feeds) sm =
    add_feeds t resolved (suc fi) feeds (add_feed t resolved fi feed sm)

-- The body of the loop over the sessions.
unfoldable pub add_virtual : List (ℕ × ResolvedSchema) → SessionMeta → SessionMeta
unfolding fallback_timing udt_feeds add_feeds in_key_order
add_virtual resolved sm =
    add_feeds (fallback_timing sm) resolved 0 (udt_feeds (in_key_order ltb sm.hash_to_counters)) sm

-- `sessions.erase(prefix)` for each deleted one.
unfoldable pub surviving : List Bytes → List (Bytes × SessionMeta) → List (Bytes × SessionMeta)
unfolding member
surviving deleted [] = []
surviving deleted ((prefix, sm) ∷ m) =
    let more = surviving deleted m in if member prefix deleted then more else (prefix, sm) ∷ more

-- `if (!channelLogSites.empty()) kv.second.logSites = channelLogSites;`
unfoldable pub with_sites : List (ℕ × LogSiteInfo) → SessionMeta → SessionMeta
with_sites [] sm = sm
with_sites (site ∷ sites) sm = record sm { log_sites = site ∷ sites }

-- Nothing is made up when no schema was read.
unfoldable pub synthesized :
    List (ℕ × Bytes)
    → List (ℕ × ResolvedSchema)
    → List (Bytes × SessionMeta)
    → List (Bytes × SessionMeta)
unfolding add_virtual
synthesized [] resolved sessions = sessions
synthesized (_ ∷ _) resolved sessions =
    map (λ (prefix, sm). (prefix, add_virtual resolved sm)) sessions

-- `DiscoverSessions` behind the scan.
unfoldable pub finish_scan :
    (strtod : Bytes → Option (ℕ × Bytes)) → Scan → List (Bytes × SessionMeta)
unfolding resolve_schemas synthesized surviving with_sites
finish_scan strtod st =
    let resolved = (resolve_schemas strtod st.schemas).hash_to_resolved in
    map (λ (prefix, sm). (prefix, with_sites st.sites sm))
      (surviving st.deleted (synthesized st.schemas resolved st.sessions))

-- ===== src/Registry/Laws/Feeds.antt =====
-- The records of a UDT feed: its schema first, then the feed.
use kv8_metrics.Prelude.{
  ℕ, ◌+◌, ◌^◌, ◌<◌, ◌≡◌, sym, ap, subst, ◌∙◌, true, none, some, List, [], ◌∷◌, ◌++◌, length,
  length-append, append_assoc, arith, false,
}
use kv8_metrics.Prelude.Bytes.{Bytes, codes}
use kv8_metrics.Prelude.Assoc.{find, assign, find-assign, bytes_eq, nat_eq}
use kv8_metrics.Wire.Registry.{RegistryRecord, cid_log_site, cid_schema, cid_log, flag_udt}
use kv8_metrics.Kv8log.Text.{hex4, hex8}
use kv8_metrics.Wire.Hash.{fnv32}
use kv8_metrics.Kv8log.Session.{Session, registry_message}
use kv8_metrics.Kv8log.Register.{feed_topic, schema_message, extract_schema_name}
use kv8_metrics.Wire.Hash.{fnv32, fnv32-lt}
use kv8_metrics.Registry.{
  Scan, CounterMeta, scan, parse_record, store_record, session_prefix, counter_meta,
}
use kv8_metrics.Registry.Laws.Prefix.{
  hex-Lacks, prefix-feed_topic, prefix-data_topic, of_channel-append, of_channel_short,
}
use kv8_metrics.Prelude.Bytes.{Lacks, append-Lacks}
use kv8_metrics.Registry.Laws.Message.{fields, message-parsed}
use kv8_metrics.Registry.Laws.Discovery.{
  Discovered, prefix_of, store_record-Discovered, store_record-foreign,
}

feed_split :
    (s : Session) (hash id : ℕ)
    → feed_topic s hash id ≡ prefix_of s ++ (codes ".u." ++ (hex8 hash ++ (codes "." ++ hex4 id)))
unfolding feed_topic
feed_split s hash id = simp append_assoc

feed_prefix :
    (s : Session) (hash id : ℕ)
    → Lacks 100 (prefix_of s)
    → id < cid_log
    → session_prefix id (feed_topic s hash id) ≡ some (prefix_of s)
feed_prefix s hash id no_d h =
    ap (session_prefix id) (feed_split s hash id)
    ∙ prefix-feed_topic id (prefix_of s) _ h
        (append-Lacks 100 (prefix_of s) (codes ".u." ++ (hex8 hash ++ (codes "." ++ hex4 id))) no_d
          (
            (λ e. omega arith),
            ((λ e. omega arith), ((λ e. omega arith), hex-Lacks 100 hash id (omega arith))),
          ))
        (hex-Lacks 117 hash id (omega arith))

topic_given : (s : Session) (hash id : ℕ) → 0 < length (feed_topic s hash id)
topic_given s hash id = omega (
  arith,
  ap length (feed_split s hash id),
  length-append (prefix_of s) (codes ".u." ++ (hex8 hash ++ (codes "." ++ hex4 id))),
)

schema_stored :
    (channel json : Bytes) (st : Scan)
    → length json < 2 ^ 16
    → length (extract_schema_name json) < 2 ^ 16
    → parse_record channel (schema_message json) st
      ≡ record st { schemas = assign (fnv32 json) json st.schemas }
unfolding schema_message store_record fields
schema_stored channel json st hj hn =
    message-parsed (fnv32 json) cid_schema 0 0 0 (extract_schema_name json) json channel st
      (fnv32-lt json) (omega arith) (omega arith) (omega arith) (omega arith) hn hj

-- What the consumer is to know of a feed.
pub feed_meta : ℕ → (name json topic : Bytes) → CounterMeta
feed_meta id name json topic = record {
  name = name;
  counter_id = id;
  flags = 3;
  min_bits = 0;
  alarm_min = 0;
  max_bits = 0;
  alarm_max = 0;
  data_topic = topic;
  is_udt_feed = true;
  schema_hash = fnv32 json;
  schema_json = json;
  is_virtual_field = false;
  field_offset = 0;
  field_type = 0;
  display_name = [];
}

found_schema :
    (h : ℕ) (json : Bytes) (m : List (ℕ × Bytes))
    → elim (find h (assign h json m)) as (λ x. Bytes) [ none ↦ [] | some j ↦ j ] ≡ json
found_schema h json m = ground (arith, find-assign h h json m)

described :
    (id : ℕ) (name json topic : Bytes) (m : List (ℕ × Bytes))
    → counter_meta
        (fields (fnv32 json) id 3 0 0 0 0 0 0 name topic)
        name
        topic
        (assign (fnv32 json) json m)
      ≡ feed_meta id name json topic
unfolding counter_meta fields feed_meta
described id name json topic m =
    ap (λ j. record (feed_meta id name json topic) { schema_json = j })
      (found_schema (fnv32 json) json m)

-- For a session whose prefix has no letter 'd', an id below the reserved ones and texts below 64
-- KiB: a consumer that reads the schema record and then the record of a feed finds the feed
-- under the prefix of the session and the topic of the feed, with its schema.
pub feed-Discovered :
    (s : Session) (id : ℕ) (name json : Bytes) (st : Scan)
    → Lacks 100 (prefix_of s)
    → 0 < length s.session_id
    → id < cid_log_site
    → length name < 2 ^ 16
    → length json < 2 ^ 16
    → length (extract_schema_name json) < 2 ^ 16
    → length (feed_topic s (fnv32 json) id) < 2 ^ 16
    → Discovered
        (prefix_of s)
        (feed_topic s (fnv32 json) id)
        (feed_meta id name json (feed_topic s (fnv32 json) id))
        (scan s.channel_name
          (schema_message json
            ∷ registry_message
                (fnv32 json)
                id
                (flag_udt + 1)
                0
                0
                0
                0
                0
                0
                name
                (feed_topic s (fnv32 json) id)
            ∷ [])
          st)
unfolding scan fields
feed-Discovered s id name json st no_d sid hid hname hjson hsn htopic =
    subst (Discovered (prefix_of s) topic (feed_meta id name json topic))
      (sym (
        ap
          (parse_record s.channel_name
            (registry_message (fnv32 json) id (flag_udt + 1) 0 0 0 0 0 0 name topic))
          (schema_stored s.channel_name json st hjson hsn)
        ∙ message-parsed (fnv32 json) id 3 0 0 name topic s.channel_name known (fnv32-lt json)
            (omega arith) (omega arith) (omega arith) (omega arith) hname htopic))
      (subst
        (λ cm.
          Discovered (prefix_of s) topic cm (store_record s.channel_name sent name topic known))
        (described id name json topic st.schemas)
        (store_record-Discovered s.channel_name (prefix_of s) name topic sent known hid
          (topic_given s (fnv32 json) id) (feed_prefix s (fnv32 json) id no_d (omega arith))
          (of_channel-append s.channel_name s.session_id sid)))
  where
    topic : Bytes
    topic = feed_topic s (fnv32 json) id

    known : Scan
    known = record st { schemas = assign (fnv32 json) json st.schemas }

    sent : RegistryRecord
    sent = fields (fnv32 json) id 3 0 0 0 0 0 0 name topic

-- For a channel with a segment 'd', behind which neither the channel nor the session id has a
-- letter 'd', a consumer skips the record of every feed: the scan is unchanged.
pub shadowed_feed_lost :
    (s : Session) (id : ℕ) (a b name json : Bytes) (st : Scan)
    → s.channel_name ≡ a ++ (codes ".d." ++ b)
    → Lacks 100 b
    → Lacks 100 s.session_id
    → id < cid_log_site
    → length name < 2 ^ 16
    → length (feed_topic s (fnv32 json) id) < 2 ^ 16
    → parse_record s.channel_name
        (registry_message
          (fnv32 json)
          id
          (flag_udt + 1)
          0
          0
          0
          0
          0
          0
          name
          (feed_topic s (fnv32 json) id))
        st
      ≡ st
unfolding fields
shadowed_feed_lost s id a b name json st e hb hs hid hname htopic =
    message-parsed (fnv32 json) id 3 0 0 name topic s.channel_name st (fnv32-lt json) (omega arith)
      (omega arith) (omega arith) (omega arith) hname htopic
    ∙ store_record-foreign s.channel_name a name topic
        (fields (fnv32 json) id 3 0 0 0 0 0 0 name topic) st hid (topic_given s (fnv32 json) id)
        (ap (session_prefix id) shadowed ∙ prefix-data_topic id a rest (omega arith) clean)
        (of_channel_short s.channel_name a
          (omega (arith, ap length e, length-append a (codes ".d." ++ b))))
  where
    topic : Bytes
    topic = feed_topic s (fnv32 json) id

    ids : Bytes
    ids = hex8 (fnv32 json) ++ (codes "." ++ hex4 id)

    rest : Bytes
    rest = b ++ (codes "." ++ (s.session_id ++ (codes ".u." ++ ids)))

    clean : Lacks 100 rest
    clean = append-Lacks 100 b (codes "." ++ (s.session_id ++ (codes ".u." ++ ids))) hb (
      (λ q. omega arith),
      append-Lacks 100 s.session_id (codes ".u." ++ ids) hs (
        (λ q. omega arith),
        ((λ q. omega arith), ((λ q. omega arith), hex-Lacks 100 (fnv32 json) id (omega arith))),
      ),
    )

    shadowed : topic ≡ a ++ (codes ".d." ++ rest)
    shadowed =
        feed_split s (fnv32 json) id
        ∙ ap (λ c. (c ++ (codes "." ++ s.session_id)) ++ (codes ".u." ++ ids)) e
        ∙ simp append_assoc

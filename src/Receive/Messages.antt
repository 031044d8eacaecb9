-- ===== src/Receive/Messages.antt =====
-- The callback on a message and the counter-state events of kv8scope/ConsumerThread.cpp. A result of
-- none stands for reading past the end of the payload.
use kv8_metrics.Prelude.{
  ℕ, ◌+◌, ◌-◌, ◌%◌, ◌^◌, Bool, not, ◌&&◌, ◌||◌, Option, none, some, List, [], ◌∷◌, ◌++◌, length,
  ltb, ◌==◌, if◌then◌else◌,
}
use kv8_metrics.Prelude.Bytes.{Bytes, codes, skip}
use kv8_metrics.Prelude.Assoc.{find, assign, bytes_beq, bytes_eq, nat_eq}
use kv8_metrics.Ring.Dynamic.{Ring, push}
use kv8_metrics.Wire.Header.{get_ext_subtype, get_ext_size, tel_type_udt}
use kv8_metrics.Wire.Sample.{
  tel_value_size, read_value, udt_sample_size, read_sample, sample_payload, TelValue,
}
use kv8_metrics.Udt.Decode.{Doubles, kv8_wire_size, kv8_decode_field}
use kv8_metrics.Kv8log.Ctl.{find_key}
use kv8_metrics.LogStore.{push_log_record, push_log_site}
use kv8_metrics.Registry.{is_empty}
use kv8_metrics.Receive.Stats.{Reals, make_key, feed}
use kv8_metrics.Receive.CtlText.{CtlResult, parse_ctl}
use kv8_metrics.Receive.Setup.{TopicCtx, Sample, FieldCtx, Consumer, no_sample, convert, is_missing}

-- `ParseAndQueueCtl`, and `DrainCounterStateEvents`: the events in the order of the calls of `cb`.
unfoldable pub queue_ctl : CtlResult → Consumer → Option Consumer
queue_ctl CtlResult.ignored c = some c
queue_ctl CtlResult.past_end c = none
queue_ctl (CtlResult.event wid enabled) c =
    some (record c { pending_ctl = c.pending_ctl ++ (wid, enabled) ∷ [] })

unfoldable pub parse_and_queue_ctl : Bytes → Consumer → Option Consumer
unfolding parse_ctl queue_ctl
parse_and_queue_ctl payload c = queue_ctl (parse_ctl payload) c

unfoldable pub drain_counter_state_events : Consumer → Consumer × List (ℕ × Bool)
drain_counter_state_events c = (record c { pending_ctl = [] }, c.pending_ctl)

-- `!name.empty() && sTopic == name`
unfoldable pub is_topic : Bytes → Bytes → Bool
unfolding is_empty
is_topic topic name = not (is_empty name) && bytes_beq topic name

unfoldable pub find_ctx : Bytes → List TopicCtx → Option TopicCtx
find_ctx topic [] = none
find_ctx topic (ctx ∷ topics) =
    if bytes_beq ctx.topic topic then some ctx else find_ctx topic topics

-- The push of a sample to a ring, and the count of those that are dropped.
unfoldable pub put : ℕ → Ring Sample → Sample → Consumer → Consumer
unfolding assign
put key r sample c =
    let (r', done) = push no_sample r sample in
    record c {
      rings = assign key r' c.rings;
      dropped = if done then c.dropped else ((c.dropped + 1) % 2 ^ 64);
    }

unfoldable pub count_message : ℕ → Consumer → Consumer
count_message timestamp c = record c {
  total_messages = (c.total_messages + 1) % 2 ^ 64;
  last_msg_time = timestamp;
}

module _ (re : Reals) where
  unfoldable pub feed_stats : ℕ → ℕ → ℕ → Consumer → Consumer
  unfolding feed
  feed_stats hash id v c = record c {
    stats = elim c.stats [ none ↦ none | some stats ↦ some (feed re hash id v stats) ];
  }

  -- A sample of a counter, from the lookup of its ring on.
  unfoldable pub store_value : ℕ → ℕ → Sample → Consumer → Consumer
  unfolding find make_key put feed_stats count_message
  store_value hash id sample c =
      let key = make_key hash id in
      elim (find key c.rings) [
        | none ↦ c
        | some r ↦
            count_message sample.timestamp (feed_stats hash id sample.value (put key r sample c))
      ]

  unfoldable pub scalar_with : Option TopicCtx → TelValue → Consumer → Consumer
  unfolding store_value convert
  scalar_with none p c = c
  scalar_with (some ctx) p c =
      if not ctx.converter.valid
      then c
      else store_value ctx.hash p.id
          (record { timestamp = convert re ctx.converter p.timer; value = p.value }) c

  -- A Kv8TelValue.
  unfoldable pub on_scalar : Bytes → Bytes → Consumer → Consumer
  unfolding scalar_with find_ctx read_value
  on_scalar topic payload c =
      if ltb (length payload) tel_value_size
      then c
      else scalar_with (find_ctx topic c.topics) (read_value payload) c

  module _ (fl : Doubles) where
    -- One field of a UDT sample with `size` bytes of data.
    unfoldable pub store_field :
        (size : ℕ) → Bytes → (timestamp : ℕ) → FieldCtx → Consumer → Consumer
    unfolding find put feed_stats
    store_field size packed timestamp fc c =
        let value = kv8_decode_field fl (skip fc.offset packed) fc.field_type in
        if ltb size (fc.offset + kv8_wire_size fc.field_type)
        then c
        else elim (find fc.key c.rings) [
          | none ↦ c
          | some r ↦
              feed_stats fc.hash fc.counter_id value
                (put fc.key r (record { timestamp = timestamp; value = value }) c)
        ]

    unfoldable pub store_fields :
        (size : ℕ) → Bytes → (timestamp : ℕ) → List FieldCtx → Consumer → Consumer
    unfolding store_field
    store_fields size packed timestamp [] c = c
    store_fields size packed timestamp (fc ∷ fcs) c =
        store_fields size packed timestamp fcs (store_field size packed timestamp fc c)

    unfoldable pub udt_with :
        Option TopicCtx → Option (List FieldCtx) → (size timer : ℕ) → Bytes → Consumer → Consumer
    unfolding store_fields convert count_message
    udt_with none fields size timer packed c = c
    udt_with (some ctx) none size timer packed c = c
    udt_with (some ctx) (some fcs) size timer packed c =
        let timestamp = convert re ctx.converter timer in
        if not ctx.converter.valid
        then c
        else count_message timestamp (store_fields size packed timestamp fcs c)

    -- A Kv8UDTSample and its data.
    unfoldable pub on_udt : Bytes → Bytes → Consumer → Consumer
    unfolding udt_with find_ctx find read_sample sample_payload get_ext_subtype get_ext_size
    on_udt topic payload c =
        let p = read_sample payload in
        let total = get_ext_size p.bits in
        if ltb (length payload) udt_sample_size
        then c
        else if not (get_ext_subtype p.bits == tel_type_udt)
        then c
        else if ltb total udt_sample_size || ltb (length payload) total
        then c
        else udt_with (find_ctx topic c.topics) (find topic c.udt_topic_fields)
            (total - udt_sample_size) p.timer (sample_payload payload) c

    unfoldable pub on_data : Bytes → Bytes → Consumer → Consumer
    unfolding on_udt on_scalar find_key is_missing
    on_data topic payload c =
        if is_missing (find_key (codes ".u.") topic)
        then on_scalar topic payload c
        else on_udt topic payload c

    unfoldable pub on_registry : Bytes → Bytes → Consumer → Consumer
    unfolding is_topic push_log_site on_data
    on_registry topic payload c = elim c.log_store [
      | none ↦ on_data topic payload c
      | some st ↦
          if is_topic topic c.registry_topic
          then record c { log_store = some (push_log_site payload st) }
          else on_data topic payload c
    ]

    unfoldable pub on_log : Bytes → Bytes → Consumer → Consumer
    unfolding is_topic push_log_record on_registry
    on_log topic payload c = elim c.log_store [
      | none ↦ on_registry topic payload c
      | some st ↦
          if is_topic topic c.log_topic
          then record c { log_store = some (push_log_record payload st) }
          else on_registry topic payload c
    ]

    unfoldable pub on_annotation : Bytes → Bytes → Consumer → Consumer
    unfolding is_topic on_log
    on_annotation topic payload c = elim c.annotations [
      | none ↦ on_log topic payload c
      | some calls ↦
          if is_topic topic c.annotation_topic
          then record c { annotations = some (calls ++ payload ∷ []) }
          else on_log topic payload c
    ]

    -- `onMessage`
    unfoldable pub on_message : Bytes → Bytes → Consumer → Option Consumer
    unfolding is_topic parse_and_queue_ctl on_annotation
    on_message topic payload c =
        if is_topic topic c.ctl_topic
        then parse_and_queue_ctl payload c
        else some (on_annotation topic payload c)

    -- The messages that the polls hand to it.
    unfoldable pub on_messages : List (Bytes × Bytes) → Consumer → Option Consumer
    unfolding on_message
    on_messages [] c = some c
    on_messages ((topic, payload) ∷ messages) c = elim (on_message topic payload c) [
      | none ↦ none
      | some c' ↦ on_messages messages c'
    ]

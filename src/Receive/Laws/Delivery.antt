-- ===== src/Receive/Laws/Delivery.antt =====
-- The samples of the runtime library, as the callback of kv8scope/ConsumerThread.cpp stores them.
use kv8_metrics.Prelude.{
  ℕ, ◌+◌, ◌%◌, ◌^◌, ◌<◌, ◌≡◌, ◌≢◌, refl, sym, ap, subst, ◌∙◌, Bool, true, false, not, Option, none,
  some, [], length, ==_iff, if◌then◌else◌, arith,
}
use kv8_metrics.Prelude.Bytes.{Bytes, codes}
use kv8_metrics.Prelude.Assoc.{find, find-assign, nat_eq, bytes_eq}
use kv8_metrics.Ring.Queue
use kv8_metrics.Ring.Dynamic.{Ring, push, capacity}
use kv8_metrics.Ring.Dynamic.Refine.{IsValid, contents, dynamic_push_refines}
use kv8_metrics.Wire.Header.{get_ext_subtype, tel_type_value}
use kv8_metrics.Wire.Sample.{tel_value_size, length-write_value, read_value, read_sample}
use kv8_metrics.Udt.Decode.{Doubles}
use kv8_metrics.Kv8log.Ctl.{find_key}
use kv8_metrics.Kv8log.Session.{Slot}
use kv8_metrics.Kv8log.Emit.{value_message}
use kv8_metrics.Kv8log.Laws.Samples.{value_message_lem}
use kv8_metrics.Receive.Stats.{Reals, make_key, feed}
use kv8_metrics.Receive.Setup.{TopicCtx, Sample, Consumer, no_sample, convert, is_missing}
use kv8_metrics.Receive.Messages.{
  is_topic, find_ctx, put, count_message, feed_stats, store_value, scalar_with, on_scalar, on_udt,
  on_data, on_registry, on_log, on_annotation, on_message,
}

-- None of the topics that are not for samples.
pub record ForSamples (topic : Bytes) (c : Consumer) : Type 0 where
  pub not_ctl : is_topic topic c.ctl_topic ≡ false
  pub not_annotation : is_topic topic c.annotation_topic ≡ false
  pub not_log : is_topic topic c.log_topic ≡ false
  pub not_registry : is_topic topic c.registry_topic ≡ false

-- The test for the topic of a feed.
abbrev pub has_u : Bytes → Bool
has_u topic = not (is_missing (find_key (codes ".u.") topic))

-- A topic that is not the store's goes on.
not_taken :
    {A : Type 0} (store : Option A) (taken : A → Consumer) (rest : Consumer) {mine : Bool}
    → mine ≡ false
    → (elim store [ none ↦ rest | some st ↦ if mine then taken st else rest ]) ≡ rest
not_taken none taken rest e = refl
not_taken (some st) taken rest e = rw e refl

module _ (re : Reals) (fl : Doubles) (topic payload : Bytes) (c : Consumer)
    (free : ForSamples topic c) where
  registry-data : on_registry re fl topic payload c ≡ on_data re fl topic payload c
  unfolding on_registry
  registry-data = not_taken c.log_store _ _ free.not_registry

  log-data : on_log re fl topic payload c ≡ on_data re fl topic payload c
  unfolding on_log
  log-data = not_taken c.log_store _ _ free.not_log ∙ registry-data

  annotation-data : on_annotation re fl topic payload c ≡ on_data re fl topic payload c
  unfolding on_annotation
  annotation-data = not_taken c.annotations _ _ free.not_annotation ∙ log-data

  pub message-data : on_message re fl topic payload c ≡ some (on_data re fl topic payload c)
  unfolding on_message
  message-data = rw free.not_ctl (ap some annotation-data)

-- What the push of a sample to the ring of a key does: the ring takes the sample as a bounded queue
-- does, a sample that it refuses is counted, and the rings of all other keys stay as they are.
pub record Put (key : ℕ) (r : Ring Sample) (sample : Sample) (c c' : Consumer) : Type 0 where
  pub ring : Ring Sample
  pub done : Bool
  pub there : find key c'.rings ≡ some ring
  pub queued :
      (contents no_sample ring, done) ≡ Queue.push (capacity r) (contents no_sample r) sample
  pub counted : c'.dropped ≡ (if done then c.dropped else ((c.dropped + 1) % 2 ^ 64))
  pub others : (j : ℕ) → j ≢ key → find j c'.rings ≡ find j c.rings

put-Put :
    (key : ℕ) (r : Ring Sample) (sample : Sample) (c : Consumer)
    → IsValid r
    → r.head + 1 < 2 ^ 64
    → Put key r sample c (put key r sample c)
unfolding put
put-Put key r sample c v room =
    let (r', done) = push no_sample r sample in
    record {
      ring = r';
      done = done;
      there = find-assign key key r' c.rings ∙ ground (arith, ==_iff key key);
      queued = dynamic_push_refines no_sample sample v room;
      counted = refl;
      others = λ j other. find-assign key j r' c.rings ∙ ground (arith, ==_iff key j, other);
    }

-- A scalar sample that was taken: it is put to the ring, fed to the accumulators, and counted.
pub record Taken (re : Reals) (hash id : ℕ) (r : Ring Sample) (sample : Sample) (c c' : Consumer)
    : Type 0 where
  pub stored : Put (make_key hash id) r sample c c'
  pub fed :
      c'.stats
      ≡ (elim c.stats [ none ↦ none | some stats ↦ some (feed re hash id sample.value stats) ])
  pub total : c'.total_messages ≡ (c.total_messages + 1) % 2 ^ 64
  pub time : c'.last_msg_time ≡ sample.timestamp

store_value_lem :
    (re : Reals) (hash id : ℕ) (r : Ring Sample) (sample : Sample) (c : Consumer)
    → find (make_key hash id) c.rings ≡ some r
    → store_value re hash id sample c
      ≡ count_message sample.timestamp
          (feed_stats re hash id sample.value (put (make_key hash id) r sample c))
unfolding store_value
store_value_lem re hash id r sample c e = rw (e, store_value) refl

store_value-Taken :
    (re : Reals) (hash id : ℕ) (r : Ring Sample) (sample : Sample) (c : Consumer)
    → find (make_key hash id) c.rings ≡ some r
    → IsValid r
    → r.head + 1 < 2 ^ 64
    → Taken re hash id r sample c (store_value re hash id sample c)
unfolding put count_message feed_stats
store_value-Taken re hash id r sample c e v room =
    let p = put-Put (make_key hash id) r sample c v room in
    subst (Taken re hash id r sample c) (sym (store_value_lem re hash id r sample c e)) (record {
      stored = record {
        ring = p.ring;
        done = p.done;
        there = p.there;
        queued = p.queued;
        counted = p.counted;
        others = p.others;
      };
      fed = refl;
      total = refl;
      time = refl;
    })

if-not : {A : Type 0} (x y : A) (b : Bool) → not b ≡ false → (if b then x else y) ≡ x
if-not x y true e = refl
if-not x y false e = cc

pub if-valid : {A : Type 0} (x y : A) (b : Bool) → b ≡ true → (if not b then x else y) ≡ y
if-valid x y true e = refl
if-valid x y false e = cc

pub if-missing : {A : Type 0} (x y : A) (b : Bool) → not b ≡ true → (if b then x else y) ≡ y
if-missing x y true e = cc
if-missing x y false e = refl

wrong_subtype :
    (re : Reals) (fl : Doubles) (topic payload : Bytes) (c : Consumer)
    → length payload ≡ tel_value_size
    → get_ext_subtype (read_value payload).bits ≡ tel_type_value
    → on_udt re fl topic payload c ≡ c
unfolding on_udt read_value read_sample
wrong_subtype re fl topic payload c e subtype = rw (e, subtype) refl

length-value_message :
    (id : ℕ) (slot : Slot) (timer value : ℕ)
    → length (value_message id slot timer value) ≡ tel_value_size
unfolding value_message
length-value_message id slot timer value = length-write_value _ [] ∙ omega arith

on_scalar_lem :
    (re : Reals) (topic payload : Bytes) (c : Consumer)
    → length payload ≡ tel_value_size
    → on_scalar re topic payload c ≡ scalar_with re (find_ctx topic c.topics) (read_value payload) c
unfolding on_scalar
on_scalar_lem re topic payload c e = rw e refl

module _ (re : Reals) (fl : Doubles) (topic : Bytes) (ctx : TopicCtx) (c : Consumer) where
  -- For a counter's message with an id and a sequence number of 16 bits and a time and a value of 64
  -- bits, on a topic that is none of the session's others, has no ".u." in its name and has a valid
  -- clock, and a valid ring for the counter: the value is taken as a sample of the counter, at the
  -- time that the clock gives.
  pub scalar_delivered :
      (r : Ring Sample) (id : ℕ) (slot : Slot) (timer value : ℕ)
      → ForSamples topic c
      → has_u topic ≡ false
      → find_ctx topic c.topics ≡ some ctx
      → ctx.converter.valid ≡ true
      → find (make_key ctx.hash id) c.rings ≡ some r
      → IsValid r
      → r.head + 1 < 2 ^ 64
      → id < 2 ^ 16
      → slot.seq < 2 ^ 16
      → timer < 2 ^ 64
      → value < 2 ^ 64
      → (c' : Consumer) × (on_message re fl topic (value_message id slot timer value) c ≡ some c')
        × Taken re ctx.hash id r
            (record { timestamp = convert re ctx.converter timer; value = value })
            c
            c'
  unfolding on_data scalar_with
  scalar_delivered r id slot timer value free plain found valid ring v room hi hs ht hv =
      let m = value_message id slot timer value in
      let fields = value_message_lem id slot timer value hi hs ht hv in
      let sample : Sample = record { timestamp = convert re ctx.converter timer; value = value } in
      (
        store_value re ctx.hash id sample c,
        message-data re fl topic m c free
            ∙ ap some (
                if-not (on_scalar re topic m c) (on_udt re fl topic m c)
                  (is_missing (find_key (codes ".u.") topic)) plain
                ∙ on_scalar_lem re topic m c (length-value_message id slot timer value)
                ∙ ap (λ o. scalar_with re o (read_value m) c) found
                ∙ if-valid c _ ctx.converter.valid valid
                ∙ ap
                    (λ (i : ℕ).
                      store_value re ctx.hash i
                        (record {
                          timestamp = convert re ctx.converter (read_value m).timer;
                          value = (read_value m).value;
                        })
                        c)
                    fields.0
                ∙ ap
                    (λ (t : ℕ).
                      store_value re ctx.hash id
                        (record {
                          timestamp = convert re ctx.converter t;
                          value = (read_value m).value;
                        })
                        c)
                    fields.2
                ∙ ap
                    (λ (v : ℕ).
                      store_value re ctx.hash id
                        (record { timestamp = convert re ctx.converter timer; value = v }) c)
                    fields.3),
        store_value-Taken re ctx.hash id r sample c ring v room,
      )

  -- For the message of a scalar sample, with values that fit their widths, on a topic with ".u." in its name
  -- that is none of the session's others: it changes nothing, since the header is taken for that
  -- of a feed, so that the sample is lost without being counted.
  pub scalar_lost :
      (id : ℕ) (slot : Slot) (timer value : ℕ)
      → ForSamples topic c
      → has_u topic ≡ true
      → id < 2 ^ 16
      → slot.seq < 2 ^ 16
      → timer < 2 ^ 64
      → value < 2 ^ 64
      → on_message re fl topic (value_message id slot timer value) c ≡ some c
  unfolding on_data
  scalar_lost id slot timer value free u hi hs ht hv =
      let m = value_message id slot timer value in
      let fields = value_message_lem id slot timer value hi hs ht hv in
      message-data re fl topic m c free
      ∙ ap some (
          if-missing (on_scalar re topic m c) (on_udt re fl topic m c)
            (is_missing (find_key (codes ".u.") topic)) u
          ∙ wrong_subtype re fl topic m c (length-value_message id slot timer value) fields.5)

-- ===== src/Receive/Laws/Feeds.antt =====
-- The samples of feeds, as the callback of kv8scope/ConsumerThread.cpp stores their fields.
use kv8_metrics.Prelude.{
  ℕ, ◌+◌, ◌-◌, ◌%◌, ◌^◌, ◌<◌, ◌≤◌, ◌≡◌, refl, sym, ap, ◌∙◌, Bool, true, not, ◌&&◌, Option, none,
  some, List, [], ◌∷◌, length, ltb, ◌==◌, ==_iff, inl, inr, Bool-cases, Option-cases, if◌then◌else◌,
  arith,
}
use kv8_metrics.Prelude.Bytes.{Bytes, codes, skip}
use kv8_metrics.Prelude.Assoc.{find, find-assign, nat_eq, bytes_eq}
use kv8_metrics.Ring.Dynamic.{Ring, push}
use kv8_metrics.Wire.Header.{get_ext_subtype, get_ext_size, tel_type_udt, udt_max_payload}
use kv8_metrics.Wire.Sample.{length-write_sample, udt_sample_size, read_sample, sample_payload}
use kv8_metrics.Udt.Decode.{Doubles, kv8_wire_size, kv8_decode_field}
use kv8_metrics.Kv8log.Ctl.{find_key}
use kv8_metrics.Kv8log.Session.{Slot}
use kv8_metrics.Kv8log.Emit.{udt_message}
use kv8_metrics.Kv8log.Laws.Samples.{udt_message_lem}
use kv8_metrics.Receive.Stats.{Reals}
use kv8_metrics.Receive.Setup.{TopicCtx, Sample, FieldCtx, Consumer, no_sample, convert, is_missing}
use kv8_metrics.Receive.Messages.{
  find_ctx, put, count_message, feed_stats, store_field, store_fields, udt_with, on_udt, on_scalar,
  on_data, on_message,
}
use kv8_metrics.Receive.Laws.Delivery.{ForSamples, has_u, message-data, if-missing, if-valid}

abbrev pub push_all : Ring Sample → List Sample → Ring Sample
push_all r [] = r
push_all r (s ∷ samples) = push_all (push no_sample r s).0 samples

abbrev pub on_ring : List Sample → Option (Ring Sample) → Option (Ring Sample)
on_ring samples none = none
on_ring samples (some r) = some (push_all r samples)

-- The field lies in the data and belongs to the key.
abbrev pub belongs : ℕ → ℕ → FieldCtx → Bool
belongs size key fc = not (ltb size (fc.offset + kv8_wire_size fc.field_type)) && fc.key == key

abbrev pub field_samples : Doubles → Bytes → ℕ → ℕ → List FieldCtx → List Sample
field_samples fl packed timestamp key [] = []
field_samples fl packed timestamp key (fc ∷ fcs) =
    if belongs (length packed) key fc
    then record {
      timestamp = timestamp;
      value = kv8_decode_field fl (skip fc.offset packed) fc.field_type;
    }
      ∷ field_samples fl packed timestamp key fcs
    else field_samples fl packed timestamp key fcs

same_key :
    (rings : List (ℕ × Ring Sample)) (j k : ℕ) → (j == k) ≡ true → find j rings ≡ find k rings
same_key rings j k e = ap (λ q. find q rings) ((==_iff j k).0 e)

on_ring-none : (o : Option (Ring Sample)) → on_ring [] o ≡ o
on_ring-none none = refl
on_ring-none (some r) = refl

on_ring-cons :
    (s : Sample) (samples : List Sample) (o : Option (Ring Sample))
    → on_ring samples (on_ring (s ∷ []) o) ≡ on_ring (s ∷ samples) o
on_ring-cons s samples none = refl
on_ring-cons s samples (some r) = refl

module _ (re : Reals) (fl : Doubles) (packed : Bytes) (timestamp key : ℕ) where
  one_field : FieldCtx → List Sample
  one_field fc =
      if belongs (length packed) key fc
      then record {
        timestamp = timestamp;
        value = kv8_decode_field fl (skip fc.offset packed) fc.field_type;
      }
        ∷ []
      else []

  find-put :
      (k : ℕ) (r : Ring Sample) (sample : Sample) (c : Consumer)
      → find key (put k r sample c).rings
        ≡ (if k == key then some (push no_sample r sample).0 else find key c.rings)
  unfolding put
  find-put k r sample c = find-assign k key (push no_sample r sample).0 c.rings

  store_field-rings :
      (fc : FieldCtx) (c : Consumer)
      → find key (store_field re fl (length packed) packed timestamp fc c).rings
        ≡ on_ring (one_field fc) (find key c.rings)
  unfolding store_field one_field feed_stats
  store_field-rings fc c =
      elim (Bool-cases (ltb (length packed) (fc.offset + kv8_wire_size fc.field_type))) [
        | inl e ↦ rw (e, store_field) (sym (on_ring-none (find key c.rings)))
        | inr e ↦ elim (Option-cases (find fc.key c.rings)) [
          | inl gone ↦
              rw (e, gone, store_field)
                (elim (Bool-cases (fc.key == key)) [
                  | inl same ↦
                      let none_here : find key c.rings ≡ none =
                        sym (same_key c.rings fc.key key same) ∙ gone in
                      rw none_here refl
                  | inr other ↦ rw other (sym (on_ring-none (find key c.rings)))
                ])
          | inr (r, there) ↦
              rw (e, there, store_field)
                (find-put fc.key r _ c ∙ elim (Bool-cases (fc.key == key)) [
                  | inl same ↦
                      let some_here : find key c.rings ≡ some r =
                        sym (same_key c.rings fc.key key same) ∙ there in
                      rw (some_here, same) refl
                  | inr other ↦ rw other (sym (on_ring-none (find key c.rings)))
                ])
        ]
      ]

  store_fields-rings :
      (fcs : List FieldCtx) (c : Consumer)
      → find key (store_fields re fl (length packed) packed timestamp fcs c).rings
        ≡ on_ring (field_samples fl packed timestamp key fcs) (find key c.rings)
  unfolding store_fields one_field
  store_fields-rings [] c = sym (on_ring-none (find key c.rings))
  store_fields-rings (fc ∷ fcs) c =
      store_fields-rings fcs (store_field re fl (length packed) packed timestamp fc c)
      ∙ ap (on_ring (field_samples fl packed timestamp key fcs)) (store_field-rings fc c)
      ∙ elim (Bool-cases (belongs (length packed) key fc)) [
        | inl e ↦
            rw e (on_ring-cons _ (field_samples fl packed timestamp key fcs) (find key c.rings))
        | inr e ↦ rw e (
            ap (on_ring (field_samples fl packed timestamp key fcs))
              (on_ring-none (find key c.rings)))
      ]

store_field-total :
    (re : Reals) (fl : Doubles) (size : ℕ) (packed : Bytes) (timestamp : ℕ) (fc : FieldCtx)
    (c : Consumer)
    → (store_field re fl size packed timestamp fc c).total_messages ≡ c.total_messages
unfolding store_field feed_stats put
store_field-total re fl size packed timestamp fc c =
    elim (Bool-cases (ltb size (fc.offset + kv8_wire_size fc.field_type))) [
      | inl e ↦ rw (e, store_field) refl
      | inr e ↦ elim (Option-cases (find fc.key c.rings)) [
        | inl gone ↦ rw (e, gone, store_field) refl
        | inr (r, there) ↦ rw (e, there, store_field) refl
      ]
    ]

store_fields-total :
    (re : Reals) (fl : Doubles) (size : ℕ) (packed : Bytes) (timestamp : ℕ) (fcs : List FieldCtx)
    (c : Consumer)
    → (store_fields re fl size packed timestamp fcs c).total_messages ≡ c.total_messages
unfolding store_fields
store_fields-total re fl size packed timestamp [] c = refl
store_fields-total re fl size packed timestamp (fc ∷ fcs) c =
    store_fields-total re fl size packed timestamp fcs
      (store_field re fl size packed timestamp fc c)
    ∙ store_field-total re fl size packed timestamp fc c

udt_with_lem :
    (re : Reals) (fl : Doubles) (ctx : TopicCtx) (fcs : List FieldCtx) (size timer : ℕ)
    (packed : Bytes) (c : Consumer)
    → ctx.converter.valid ≡ true
    → let timestamp = convert re ctx.converter timer in
      udt_with re fl (some ctx) (some fcs) size timer packed c
      ≡ count_message timestamp (store_fields re fl size packed timestamp fcs c)
unfolding udt_with
udt_with_lem re fl ctx fcs size timer packed c valid = if-valid c _ ctx.converter.valid valid

on_udt_lem :
    (re : Reals) (fl : Doubles) (topic payload : Bytes) (c : Consumer)
    → udt_sample_size ≤ length payload
    → get_ext_subtype (read_sample payload).bits ≡ tel_type_udt
    → get_ext_size (read_sample payload).bits ≡ length payload
    → on_udt re fl topic payload c
      ≡ udt_with re fl
          (find_ctx topic c.topics)
          (find topic c.udt_topic_fields)
          (length payload - udt_sample_size)
          (read_sample payload).timer
          (sample_payload payload)
          c
unfolding on_udt
on_udt_lem re fl topic payload c h subtype size = rw (subtype, size, on_udt) (ground arith)

length-udt_message :
    (id : ℕ) (slot : Slot) (timer : ℕ) (payload : Bytes)
    → length (udt_message id slot timer payload) ≡ udt_sample_size + length payload
unfolding udt_message
length-udt_message id slot timer payload = length-write_sample _ payload

size_left : {n k : ℕ} → n ≡ udt_sample_size + k → n - udt_sample_size ≡ k
size_left e = omega (arith, e)

data-udt :
    (re : Reals) (fl : Doubles) (topic payload : Bytes) (c : Consumer)
    → has_u topic ≡ true
    → on_data re fl topic payload c ≡ on_udt re fl topic payload c
unfolding on_data
data-udt re fl topic payload c u =
    if-missing (on_scalar re topic payload c) (on_udt re fl topic payload c)
      (is_missing (find_key (codes ".u.") topic)) u

-- For a feed's message with an id and a sequence number of 16 bits, a time of 64 bits and a payload of
-- at most 240 bytes, on a topic that is none of the session's others, has ".u." in its name, a valid
-- clock and a list of fields: each ring takes, in the order of the list, the decoded value of each field
-- of its key that lies in the payload, at the time that the clock gives, and no other ring changes; the
-- message is counted once.
pub feed_delivered :
    (re : Reals) (fl : Doubles) (topic : Bytes) (ctx : TopicCtx) (fcs : List FieldCtx)
    (c : Consumer) (id : ℕ) (slot : Slot) (timer : ℕ) (payload : Bytes)
    → ForSamples topic c
    → has_u topic ≡ true
    → find_ctx topic c.topics ≡ some ctx
    → ctx.converter.valid ≡ true
    → find topic c.udt_topic_fields ≡ some fcs
    → id < 2 ^ 16
    → slot.seq < 2 ^ 16
    → timer < 2 ^ 64
    → length payload ≤ udt_max_payload
    → let timestamp = convert re ctx.converter timer in
      (c' : Consumer) × (on_message re fl topic (udt_message id slot timer payload) c ≡ some c')
      × ((key : ℕ)
          → find key c'.rings
            ≡ on_ring (field_samples fl payload timestamp key fcs) (find key c.rings))
      × (c'.total_messages ≡ (c.total_messages + 1) % 2 ^ 64)
      × (c'.last_msg_time ≡ timestamp)
unfolding count_message
feed_delivered re fl topic ctx fcs c id slot timer payload free u found valid fields hi hs ht hp =
    let m = udt_message id slot timer payload in
    let sent = udt_message_lem id slot timer payload hi hs ht hp in
    let timestamp = convert re ctx.converter timer in
    let len = length-udt_message id slot timer payload in
    let stored = store_fields re fl (length payload) payload timestamp fcs c in
    (
      count_message timestamp stored,
      message-data re fl topic m c free
          ∙ ap some (
              data-udt re fl topic m c u
              ∙ on_udt_lem re fl topic m c (omega (arith, len)) sent.5 sent.6
              ∙ rw (found, fields, sent.2, sent.3, size_left len)
                  (udt_with_lem re fl ctx fcs (length payload) timer payload c valid)),
      λ key. store_fields-rings re fl payload timestamp key fcs c,
      ap (λ (n : ℕ). (n + 1) % 2 ^ 64)
          (store_fields-total re fl (length payload) payload timestamp fcs c),
      refl,
    )

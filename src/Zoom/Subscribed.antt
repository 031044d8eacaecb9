-- ===== src/Zoom/Subscribed.antt =====
-- The two ways to subscribe of kv8zoom/KafkaReader.cpp.
use kv8_metrics.Prelude.{
  ℕ, ◌+◌, ◌≡◌, refl, sym, ap, ap₂, ◌∙◌, inl, inr, Option-cases, List, [], ◌∷◌, ◌++◌, append_assoc,
  append-nil, length, length-append,
}
use kv8_metrics.Prelude.Bytes.{Bytes}
use kv8_metrics.Prelude.Int.{ℤ}
use kv8_metrics.Prelude.Assoc.{find, assign, bytes_eq}
use kv8_metrics.Registry.{CounterMeta, SessionMeta}
use kv8_metrics.Zoom.Reader.{
  FeedType, Reader, new_feed, subscribe_counters, subscribe_buckets, subscribe_to_session,
  collect_counters, collect_buckets, assign_at, subscribe_from_timestamp_ms,
}

-- The calls that assign topics, of which there is none for no topics.
abbrev pub with_assigned : List (List Bytes × ℤ) → List Bytes → ℤ → List (List Bytes × ℤ)
with_assigned calls [] ms = calls
with_assigned calls (t ∷ ts) ms = calls ++ (t ∷ ts, ms) ∷ []

module _ (r : Reader) where
  -- Where the two loops are, with the feeds and the topics so far.
  abbrev subscribing : List (Bytes × FeedType) → List Bytes → Reader × ℕ
  subscribing feeds topics =
      (record r { topic_to_feed = feeds; subscribed = r.subscribed ++ topics }, length topics)

  abbrev collecting : List (Bytes × FeedType) → List Bytes → Reader × List Bytes
  collecting feeds topics = (record r { topic_to_feed = feeds }, topics)

  subscribing-append :
      (feeds : List (Bytes × FeedType)) (topics : List Bytes) (t : Bytes)
      → (
        record r { topic_to_feed = feeds; subscribed = (r.subscribed ++ topics) ++ t ∷ [] },
        length topics + 1,
      )
        ≡ subscribing feeds (topics ++ t ∷ [])
  subscribing-append feeds topics t =
      ap₂ (λ s n. (record r { topic_to_feed = feeds; subscribed = s }, n))
        (append_assoc r.subscribed topics (t ∷ [])) (sym (length-append topics (t ∷ [])))

  counters_agree :
      (cms : List CounterMeta) (feeds : List (Bytes × FeedType)) (topics : List Bytes)
      → (feeds' : List (Bytes × FeedType)) × (topics' : List Bytes) × (subscribe_counters cms
            (subscribing feeds topics)
          ≡ subscribing feeds' topics')
        × (collect_counters cms (collecting feeds topics) ≡ collecting feeds' topics')
  unfolding subscribe_counters collect_counters new_feed find
  counters_agree [] feeds topics = (feeds, topics, refl, refl)
  counters_agree (cm ∷ cms) feeds topics = elim (Option-cases (new_feed cm feeds)) [
    | inl e ↦ let (f, t, p, q) = counters_agree cms feeds topics in (f, t, rw e p, rw e q)
    | inr (ft, e) ↦
        let feeds' = assign cm.data_topic ft feeds in
        let (f, t, p, q) = counters_agree cms feeds' (topics ++ cm.data_topic ∷ []) in
        (
          f,
          t,
          rw e (ap (subscribe_counters cms) (subscribing-append feeds' topics cm.data_topic) ∙ p),
          rw e q,
        )
  ]

  buckets_agree :
      (buckets : List (ℕ × List CounterMeta)) (feeds : List (Bytes × FeedType))
      (topics : List Bytes)
      → (feeds' : List (Bytes × FeedType)) × (topics' : List Bytes) × (subscribe_buckets buckets
            (subscribing feeds topics)
          ≡ subscribing feeds' topics')
        × (collect_buckets buckets (collecting feeds topics) ≡ collecting feeds' topics')
  unfolding subscribe_buckets collect_buckets
  buckets_agree [] feeds topics = (feeds, topics, refl, refl)
  buckets_agree ((hash, cms) ∷ buckets) feeds topics =
      let (f, t, p, q) = counters_agree cms feeds topics in
      let (f', t', p', q') = buckets_agree buckets f t in
      (f', t', ap (subscribe_buckets buckets) p ∙ p', ap (collect_buckets buckets) q ∙ q')

  assign_at_lem :
      (ms : ℤ) (feeds : List (Bytes × FeedType)) (topics : List Bytes)
      → assign_at ms (collecting feeds topics) ≡ (
        record r { topic_to_feed = feeds; assigned = with_assigned r.assigned topics ms },
        length topics,
      )
  unfolding assign_at
  assign_at_lem ms feeds [] = refl
  assign_at_lem ms feeds (t ∷ ts) = refl

-- Subscribing to a session and subscribing to it from a time map the same topics to the same feeds and give the same
-- number. The first subscribes to these topics one by one, the second assigns them in one call, and
-- in none where there are none.
pub subscriptions_agree :
    (meta : SessionMeta) (ms : ℤ) (r : Reader)
    → (feeds : List (Bytes × FeedType)) × (topics : List Bytes) × (subscribe_to_session meta r
        ≡ (record r { topic_to_feed = feeds; subscribed = r.subscribed ++ topics }, length topics))
      × (subscribe_from_timestamp_ms meta ms r ≡ (
        record r { topic_to_feed = feeds; assigned = with_assigned r.assigned topics ms },
        length topics,
      ))
unfolding subscribe_to_session subscribe_from_timestamp_ms
subscriptions_agree meta ms r =
    let (feeds, topics, p, q) = buckets_agree r meta.hash_to_counters r.topic_to_feed [] in
    (
      feeds,
      topics,
      ap (λ s. subscribe_buckets meta.hash_to_counters (record r { subscribed = s }, 0))
            (sym (append-nil r.subscribed))
          ∙ p,
      ap (assign_at ms) q ∙ assign_at_lem r ms feeds topics,
    )

-- ===== src/Registry/Laws/AddFeeds.antt =====
-- The loop of `DiscoverSessions` (libs/libkv8/src/Kv8Consumer.cpp) over the feeds of a session.
use mathlib.Core.List.{Memᴰ}
use mathlib.Core.List.Memᴰ.{append_left, append_right, cases_cons, not-nil}
use kv8_metrics.Prelude.{
  ℕ, suc, ◌+◌, ◌≡◌, inl, inr, refl, sym, ap, subst, ◌∙◌, some, List, [], ◌∷◌, ◌++◌, append_assoc,
  append-nil, get_elem?, ltb, ◌==◌, Bool-cases, Option-cases, arith,
}
use kv8_metrics.Prelude.Bytes.{Bytes}
use kv8_metrics.Prelude.Assoc.{find, bytes_eq, nat_eq}
use kv8_metrics.Udt.Types.{SchemaField, ResolvedSchema}
use kv8_metrics.Registry.{CounterMeta, SessionMeta}
use kv8_metrics.Registry.Virtual.{
  Timing, virtual_counter, push_fields, add_group, copy_timing, add_fields, add_schema, add_feed,
  add_feeds,
}
use kv8_metrics.Registry.Laws.Virtual.{virtual_counters, find-push_fields, virtual_counters-Memᴰ}

-- Buckets only grow.
abbrev pub Grows : List (ℕ × List CounterMeta) → List (ℕ × List CounterMeta) → Type 0
Grows m m' =
    (h : ℕ) (vs : List CounterMeta)
    → find h m ≡ some vs
    → (ws : List CounterMeta) × (find h m' ≡ some (vs ++ ws))

Grows-refl : (m : List (ℕ × List CounterMeta)) → Grows m m
Grows-refl m h vs e = ([], e ∙ ap some (sym (append-nil vs)))

Grows-trans : (a b c : List (ℕ × List CounterMeta)) → Grows a b → Grows b c → Grows a c
Grows-trans a b c p q h vs e =
    let (ws, e1) = p h vs e in
    let (us, e2) = q h (vs ++ ws) e1 in (ws ++ us, e2 ∙ ap some (append_assoc vs ws us))

copy_timing-counters :
    (t : Timing) (topic : Bytes) (sm : SessionMeta)
    → (copy_timing t topic sm).hash_to_counters ≡ sm.hash_to_counters
unfolding copy_timing
copy_timing-counters t topic sm = elim (Bool-cases (ltb 0 t.frequency)) [
  | inl e ↦ elim (Option-cases (find topic sm.topic_to_frequency)) [
    | inl e1 ↦ rw (e, e1) refl
    | inr (v, e1) ↦ rw (e, e1) refl
  ]
  | inr e ↦ rw e refl
]

add_fields-counters :
    (t : Timing) (fi hash : ℕ) (feed : CounterMeta) (fs : List SchemaField) (sm : SessionMeta)
    → (add_fields t fi (hash, feed) fs sm).hash_to_counters
      ≡ push_fields hash fi feed 0 fs sm.hash_to_counters
unfolding add_fields
add_fields-counters t fi hash feed fs sm =
    ap (push_fields hash fi feed 0 fs)
      (copy_timing-counters t feed.data_topic (add_group hash feed.name sm))

push_fields-Grows :
    (hash fi : ℕ) (feed : CounterMeta) (i : ℕ) (fs : List SchemaField) (vs : List CounterMeta)
    (m : List (ℕ × List CounterMeta))
    → find hash m ≡ some vs
    → Grows m (push_fields hash fi feed i fs m)
push_fields-Grows hash fi feed i fs vs m e h us e' = elim (Bool-cases (hash == h)) [
  | inl same ↦ (
    virtual_counters fi feed i fs,
    ground (arith, find-push_fields hash fi feed i fs vs m h e, e, e'),
  )
  | inr other ↦
      ([], ground (arith, find-push_fields hash fi feed i fs vs m h e, e, e', append-nil us))
]

-- Each field of the schema has its counter in the bucket.
abbrev pub Synthesized : ℕ → CounterMeta → ResolvedSchema → List (ℕ × List CounterMeta) → Type 0
Synthesized hash feed r m =
    (fi : ℕ) × (cms : List CounterMeta) × (find hash m ≡ some cms)
    × ((i : ℕ) (f : SchemaField)
        → get_elem? r.fields i ≡ some f
        → Memᴰ (virtual_counter fi feed i f) cms)

Synthesized-Grows :
    (hash : ℕ) (feed : CounterMeta) (r : ResolvedSchema) (m m' : List (ℕ × List CounterMeta))
    → Grows m m'
    → Synthesized hash feed r m
    → Synthesized hash feed r m'
Synthesized-Grows hash feed r m m' grows (fi, cms, found, all) =
    let (ws, found') = grows hash cms found in
    (fi, cms ++ ws, found', λ i f e. append_left ws (all i f e))

add_schema-counters :
    (t : Timing) (fi hash : ℕ) (feed : CounterMeta) (fs : List SchemaField) (sm : SessionMeta)
    → (add_schema t fi (hash, feed) fs sm).hash_to_counters
      ≡ push_fields hash fi feed 0 fs sm.hash_to_counters
unfolding add_schema push_fields
add_schema-counters t fi hash feed [] sm = refl
add_schema-counters t fi hash feed (f ∷ fs) sm = add_fields-counters t fi hash feed (f ∷ fs) sm

module _ (t : Timing) (resolved : List (ℕ × ResolvedSchema)) where
  add_feed-counters :
      (fi hash : ℕ) (feed : CounterMeta) (r : ResolvedSchema) (sm : SessionMeta)
      → find hash resolved ≡ some r
      → (add_feed t resolved fi (hash, feed) sm).hash_to_counters
        ≡ push_fields hash fi feed 0 r.fields sm.hash_to_counters
  unfolding add_feed
  add_feed-counters fi hash feed r sm e =
      rw (e, add_feed) (add_schema-counters t fi hash feed r.fields sm)

  add_feed-Synthesized :
      (fi hash : ℕ) (feed : CounterMeta) (r : ResolvedSchema) (vs : List CounterMeta)
      (sm : SessionMeta)
      → find hash resolved ≡ some r
      → find hash sm.hash_to_counters ≡ some vs
      → Synthesized hash feed r (add_feed t resolved fi (hash, feed) sm).hash_to_counters
  add_feed-Synthesized fi hash feed r vs sm e found = (
    fi,
    vs ++ virtual_counters fi feed 0 r.fields,
    ground (
      arith,
      add_feed-counters fi hash feed r sm e,
      find-push_fields hash fi feed 0 r.fields vs sm.hash_to_counters hash found,
    ),
    λ i f at. append_right vs (
        subst (λ n. Memᴰ (virtual_counter fi feed n f) (virtual_counters fi feed 0 r.fields))
          {x = 0 + i} {y = i} (omega arith) (virtual_counters-Memᴰ fi feed 0 i r.fields f at)),
  )

  add_feed-Grows :
      (fi hash : ℕ) (feed : CounterMeta) (vs : List CounterMeta) (sm : SessionMeta)
      → find hash sm.hash_to_counters ≡ some vs
      → Grows sm.hash_to_counters (add_feed t resolved fi (hash, feed) sm).hash_to_counters
  unfolding add_feed
  add_feed-Grows fi hash feed vs sm e = elim (Option-cases (find hash resolved)) [
    | inl missing ↦ rw (missing, add_feed) (Grows-refl sm.hash_to_counters)
    | inr (r, found) ↦
        subst (Grows sm.hash_to_counters) (sym (add_feed-counters fi hash feed r sm found))
          (push_fields-Grows hash fi feed 0 r.fields vs sm.hash_to_counters e)
  ]

  -- All feeds have their bucket.
  abbrev pub Bucketed : List (ℕ × CounterMeta) → List (ℕ × List CounterMeta) → Type 0
  Bucketed feeds m =
      (p : ℕ × CounterMeta) → Memᴰ p feeds → (vs : List CounterMeta) × (find p.0 m ≡ some vs)

  Bucketed-Grows :
      (feeds : List (ℕ × CounterMeta)) (m m' : List (ℕ × List CounterMeta))
      → Grows m m'
      → Bucketed feeds m
      → Bucketed feeds m'
  Bucketed-Grows feeds m m' grows all p at =
      let (vs, e) = all p at in let (ws, e') = grows p.0 vs e in (vs ++ ws, e')

  add_feeds-Grows :
      (fi : ℕ) (feeds : List (ℕ × CounterMeta)) (sm : SessionMeta)
      → Bucketed feeds sm.hash_to_counters
      → Grows sm.hash_to_counters (add_feeds t resolved fi feeds sm).hash_to_counters
  unfolding add_feeds
  add_feeds-Grows fi [] sm all = Grows-refl sm.hash_to_counters
  add_feeds-Grows fi ((hash, feed) ∷ feeds) sm all =
      let (vs, e) = all (hash, feed) (Memᴰ.head refl) in
      let sm' = add_feed t resolved fi (hash, feed) sm in
      let first = add_feed-Grows fi hash feed vs sm e in
      Grows-trans sm.hash_to_counters sm'.hash_to_counters _ first (
        add_feeds-Grows (suc fi) feeds sm' (
          Bucketed-Grows feeds sm.hash_to_counters sm'.hash_to_counters first
            (λ p m. all p (Memᴰ.tail m))))

  pub add_feeds-Synthesized :
      (fi : ℕ) (feeds : List (ℕ × CounterMeta)) (hash : ℕ) (feed : CounterMeta) (r : ResolvedSchema)
      (sm : SessionMeta)
      → Bucketed feeds sm.hash_to_counters
      → Memᴰ (hash, feed) feeds
      → find hash resolved ≡ some r
      → Synthesized hash feed r (add_feeds t resolved fi feeds sm).hash_to_counters
  unfolding add_feeds
  add_feeds-Synthesized fi [] hash feed r sm all m e = absurd (not-nil m)
  add_feeds-Synthesized fi ((h, g) ∷ feeds) hash feed r sm all m e =
      let (vs, found) = all (h, g) (Memᴰ.head refl) in
      let sm' = add_feed t resolved fi (h, g) sm in
      let first = add_feed-Grows fi h g vs sm found in
      let rest =
        Bucketed-Grows feeds sm.hash_to_counters sm'.hash_to_counters first
          (λ p n. all p (Memᴰ.tail n)) in
      elim (cases_cons m) [
        | inr later ↦ add_feeds-Synthesized (suc fi) feeds hash feed r sm' rest later e
        | inl same ↦
            let here =
              add_feed-Synthesized fi h g r vs sm
                (ap (λ k. find k resolved) (sym (ap (λ q. q.0) same)) ∙ e) found in
            let moved : Synthesized hash feed r sm'.hash_to_counters =
              subst (λ (q : ℕ × CounterMeta). Synthesized q.0 q.1 r sm'.hash_to_counters) (sym same)
                here in
            Synthesized-Grows hash feed r sm'.hash_to_counters _
              (add_feeds-Grows (suc fi) feeds sm' rest) moved
      ]

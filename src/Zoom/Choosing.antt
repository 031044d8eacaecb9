-- ===== src/Zoom/Choosing.antt =====
-- The session that kv8zoom/ZoomBridge.cpp finds for a name, and where it starts to read it.
use mathlib.Core.List.{Memᴰ}
use mathlib.Core.List.Memᴰ.{cases_cons, not-nil}
use kv8_metrics.Prelude.{
  ℕ, ◌+◌, ◌-◌, ◌<◌, ◌≤◌, ◌≡◌, ◌↔◌, refl, sym, ap, subst, ◌∙◌, inl, inr, Bool, true, false,
  Bool-cases, Option, none, some, List, [], ◌∷◌, ltb, dec_lt, if◌then◌else◌, arith,
}
use kv8_metrics.Prelude.Bytes.{Bytes}
use kv8_metrics.Prelude.Int.{ℤ}
use kv8_metrics.Prelude.Assoc.{find, bytes_beq, bytes_beq_iff, bytes_eq}
use kv8_metrics.Registry.{SessionMeta}
use kv8_metrics.Registry.Ordered.{bytes_less, in_key_order}
use kv8_metrics.Registry.Laws.KeyOrder.{Memᴰ-in_key_order, in_key_order-Memᴰ}
use kv8_metrics.Zoom.Bridge.{Subscription}
use kv8_metrics.Zoom.Catalog.{
  session_with_id, look_up, least_topic, live_edge, seek_ms, subscription, lives,
}

abbrev pub Sessions : Type 0
Sessions = List (Bytes × SessionMeta)

-- The session that a name stands for: the one with it as its prefix, or, where none has, the only one with
-- it as its id.
pub data Named (id : Bytes) (sessions : Sessions) : Bytes → SessionMeta → Type 0 where
  by_prefix : {meta : SessionMeta} → find id sessions ≡ some meta → Named id sessions id meta
  by_id :
      {prefix : Bytes} {meta : SessionMeta}
      → find id sessions ≡ none
      → Memᴰ (prefix, meta) sessions
      → meta.session_id ≡ id
      → ((p : Bytes × SessionMeta) → Memᴰ p sessions → p.1.session_id ≡ id → p ≡ (prefix, meta))
      → Named id sessions prefix meta

session_with_id-only :
    (id : Bytes) (x : Bytes × SessionMeta) (sessions : Sessions)
    → Memᴰ x sessions
    → x.1.session_id ≡ id
    → ((p : Bytes × SessionMeta) → Memᴰ p sessions → p.1.session_id ≡ id → p ≡ x)
    → session_with_id id sessions ≡ some x
unfolding session_with_id
session_with_id-only id x [] at same only = absurd (not-nil at)
session_with_id-only id x ((prefix, meta) ∷ sessions) at same only =
    elim (Bool-cases (bytes_beq meta.session_id id)) [
      | inl e ↦
          rw e (
            ap some (only (prefix, meta) (Memᴰ.head refl) ((bytes_beq_iff meta.session_id id).0 e)))
      | inr e ↦ rw e (elim (cases_cons at) [
        | inl here ↦
            cc
              (e, (bytes_beq_iff meta.session_id id).1 (ap (λ p. p.1.session_id) (sym here) ∙ same))
        | inr later ↦ session_with_id-only id x sessions later same (λ p m. only p (Memᴰ.tail m))
      ])
    ]

pub look_up-Named :
    (id : Bytes) (sessions : Sessions) (prefix : Bytes) (meta : SessionMeta)
    → Named id sessions prefix meta
    → look_up id sessions ≡ some (prefix, meta)
unfolding look_up
look_up-Named id sessions _ meta (Named.by_prefix found) =
    ap
      (λ o. elim o [
        | some meta ↦ some (id, meta)
        | none ↦ session_with_id id (in_key_order bytes_less sessions)
      ])
      found
look_up-Named id sessions prefix meta (Named.by_id missing at same only) =
    ap
      (λ o. elim o [
        | some meta ↦ some (id, meta)
        | none ↦ session_with_id id (in_key_order bytes_less sessions)
      ])
      missing
    ∙ session_with_id-only id (prefix, meta) (in_key_order bytes_less sessions)
        (Memᴰ-in_key_order bytes_less (prefix, meta) sessions at) same
        (λ p m. only p (in_key_order-Memᴰ bytes_less p sessions m))

bytes_less_irrefl : (s : Bytes) → bytes_less s s ≡ false
unfolding bytes_less
bytes_less_irrefl [] = refl
bytes_less_irrefl (c ∷ s) = ground (arith, bytes_less_irrefl s)

bytes_less_trans :
    (s t u : Bytes) → bytes_less s t ≡ true → bytes_less t u ≡ true → bytes_less s u ≡ true
unfolding bytes_less
bytes_less_trans s [] u p q = cc p
bytes_less_trans s (d ∷ t) [] p q = cc q
bytes_less_trans [] (d ∷ t) (e ∷ u) p q = refl
bytes_less_trans (c ∷ s) (d ∷ t) (e ∷ u) p q = ground (arith, bytes_less_trans s t u)

-- What is less than one of two texts is less than the other, if that is no less.
bytes_less_cross :
    (s t u : Bytes) → bytes_less s u ≡ true → bytes_less t u ≡ false → bytes_less s t ≡ true
unfolding bytes_less
bytes_less_cross s t [] p q = cc p
bytes_less_cross s [] (e ∷ u) p q = cc q
bytes_less_cross [] (d ∷ t) (e ∷ u) p q = refl
bytes_less_cross (c ∷ s) (d ∷ t) (e ∷ u) p q = ground (arith, bytes_less_cross s t u)

-- A topic of the set that none comes before.
abbrev pub Least : Bytes → List Bytes → Type 0
Least t topics = Memᴰ t topics × ((u : Bytes) → Memᴰ u topics → bytes_less u t ≡ false)

false-if : (b : Bool) → (b ≡ true → ⊥) → b ≡ false
false-if true h = absurd (h refl)
false-if false h = refl

least_topic-Least : (t : Bytes) (us : List Bytes) → Least (least_topic t us) (t ∷ us)
unfolding least_topic
least_topic-Least t [] = (
  Memᴰ.head refl,
  λ u m. elim (cases_cons m) [
    | inl e ↦ subst (λ v. bytes_less v t ≡ false) (sym e) (bytes_less_irrefl t)
    | inr later ↦ absurd (not-nil later)
  ],
)
least_topic-Least t (u ∷ us) = elim (Bool-cases (bytes_less u t)) [
  | inl e ↦
      let (at, none_less) = least_topic-Least u us in
      rw e (
        Memᴰ.tail at,
        λ v m. elim (cases_cons m) [
          | inl same ↦
              subst (λ x. bytes_less x (least_topic u us) ≡ false) (sym same)
                (false-if _ (λ p.
                  cc (none_less u (Memᴰ.head refl), bytes_less_trans u t (least_topic u us) e p)))
          | inr later ↦ none_less v later
        ],
      )
  | inr e ↦
      let (at, none_less) = least_topic-Least t us in
      rw e (
        elim (cases_cons at) [
          | inl here ↦ Memᴰ.head here
          | inr later ↦ Memᴰ.tail (Memᴰ.tail later)
        ],
        λ v m. elim (cases_cons m) [
          | inl same ↦ none_less v (Memᴰ.head same)
          | inr later ↦ elim (cases_cons later) [
            | inl same ↦
                subst (λ x. bytes_less x (least_topic t us) ≡ false) (sym same)
                  (false-if _ (λ p.
                    cc (
                      e,
                      bytes_less_cross u t (least_topic t us) p (none_less t (Memᴰ.head refl)),
                    )))
            | inr behind ↦ none_less v (Memᴰ.tail behind)
          ]
        ],
      )
]

abbrev pub IsEarly : ℤ → Type 0
IsEarly (ℤ.pos ms) = ms ≤ 30000
IsEarly (ℤ.negsuc ms) = Unit {0}

-- Where a session that is live or not is read from, in milliseconds: its start, or 30 seconds before the newest
-- record of its least topic.
pub data StartOf (latest : Bytes → ℤ) (meta : SessionMeta) : Bool → Subscription → Type 0 where
  finished : StartOf latest meta false (Subscription.from_start meta)
  no_data : meta.data_topics ≡ [] → StartOf latest meta true (Subscription.from_start meta)
  too_early :
      {t : Bytes}
      → Least t meta.data_topics
      → IsEarly (latest t)
      → StartOf latest meta true (Subscription.from_start meta)
  behind :
      {t : Bytes} {ms : ℕ}
      → Least t meta.data_topics
      → latest t ≡ ℤ.pos (ms + 30000)
      → 0 < ms
      → StartOf latest meta true (Subscription.from_ms meta (ℤ.pos ms))

subscription-start :
    (meta : SessionMeta) (ms : ℕ) → ms ≡ 0 → subscription meta ms ≡ Subscription.from_start meta
unfolding subscription
subscription-start meta ms e = rw e refl

subscription-ms :
    (meta : SessionMeta) (ms : ℕ)
    → 0 < ms
    → subscription meta ms ≡ Subscription.from_ms meta (ℤ.pos ms)
unfolding subscription
subscription-ms meta ms h =
    ap (λ t. if t then Subscription.from_ms meta (ℤ.pos ms) else Subscription.from_start meta)
      {x = ltb 0 ms} {y = true} (ground (arith, h))

edge-StartOf :
    (latest : Bytes → ℤ) (meta : SessionMeta) (t : Bytes) (newest : ℤ)
    → Least t meta.data_topics
    → latest t ≡ newest
    → StartOf latest meta true (subscription meta (live_edge newest))
unfolding live_edge
edge-StartOf latest meta t (ℤ.negsuc n) least e =
    subst (StartOf latest meta true) (sym (subscription-start meta 0 refl))
      (StartOf.too_early least (subst IsEarly (sym e) tt))
edge-StartOf latest meta t (ℤ.pos n) least e = elim (dec_lt 30000 n) [
  | yes p ↦
      subst (StartOf latest meta true) (sym (subscription-ms meta (n - 30000) (omega arith)))
        (StartOf.behind {ms = n - 30000} least (e ∙ ap ℤ.pos (omega arith)) (omega arith))
  | no p ↦
      subst (StartOf latest meta true) (sym (subscription-start meta (n - 30000) (omega arith)))
        (StartOf.too_early least (subst IsEarly (sym e) (omega arith)))
]

topics-StartOf :
    (latest : Bytes → ℤ) (live : Bool) (meta : SessionMeta) (topics : List Bytes)
    → meta.data_topics ≡ topics
    → StartOf latest meta live (subscription meta (seek_ms latest live topics))
unfolding seek_ms
topics-StartOf latest false meta [] e =
    subst (StartOf latest meta false) (sym (subscription-start meta 0 refl)) StartOf.finished
topics-StartOf latest false meta (t ∷ us) e =
    subst (StartOf latest meta false) (sym (subscription-start meta 0 refl)) StartOf.finished
topics-StartOf latest true meta [] e =
    subst (StartOf latest meta true) (sym (subscription-start meta 0 refl)) (StartOf.no_data e)
topics-StartOf latest true meta (t ∷ us) e =
    edge-StartOf latest meta (least_topic t us) (latest (least_topic t us))
      (subst (Least (least_topic t us)) (sym e) (least_topic-Least t us)) refl

pub subscription-StartOf :
    (latest : Bytes → ℤ) (live : Bool) (meta : SessionMeta)
    → StartOf latest meta live (subscription meta (seek_ms latest live meta.data_topics))
subscription-StartOf latest live meta = topics-StartOf latest live meta meta.data_topics refl

is_true : (o : Option Bool) → (elim o [ none ↦ false | some live ↦ live ] ≡ true) ↔ (o ≡ some true)
is_true none = ((λ p. cc p), λ q. cc q)
is_true (some true) = ((λ p. refl), λ q. refl)
is_true (some false) = ((λ p. cc p), λ q. cc q)

pub lives_iff :
    (prefix : Bytes) (liveness : List (Bytes × Bool))
    → (lives prefix liveness ≡ true) ↔ (find prefix liveness ≡ some true)
unfolding lives
lives_iff prefix liveness = is_true (find prefix liveness)

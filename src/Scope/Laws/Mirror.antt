-- ===== src/Scope/Laws/Mirror.antt =====
-- A reader of the events of kv8scope/SessionManager.cpp sees what the worker knows.
use kv8_metrics.Prelude.{
  ℕ, ◌≡◌, refl, sym, ap, ◌∙◌, Bool, true, false, not, ◌&&◌, ◌||◌, Option, none, some, List, [], ◌∷◌,
  ◌++◌, append_assoc, append-nil, Bool-cases, Option-cases, inl, inr, ltb, leb, if◌then◌else◌,
  arith,
}
use kv8_metrics.Prelude.Bytes.{Bytes}
use kv8_metrics.Prelude.Assoc.{find, assign, bytes_beq, bytes_beq_iff, bytes_eq}
use kv8_metrics.Registry.{SessionMeta}
use kv8_metrics.Scope.Liveness.{Liveness, LivenessInfo, probe_liveness}
use kv8_metrics.Scope.Sessions.{
  SessionEvent, SessionManager, Cycle, appearances, disappearances, virtual_fields, at_least_zero,
  more_fields, fire_expired, same_fields, update_meta, update_metas, same_liveness, liveness_at,
  update_liveness, update_livenesses,
}
use kv8_metrics.Scope.Laws.Maps.{has, has-cons, liveness_at-assign}

-- What a reader of the events knows of the session `p`: that it is there, and its liveness.
abbrev pub View : Type 0
View = Bool × Liveness

abbrev pub seen : Bytes → SessionEvent → View → View
seen p (SessionEvent.appeared q channel sm) v = if bytes_beq q p then (true, v.1) else v
seen p (SessionEvent.disappeared q) v = if bytes_beq q p then (false, Liveness.unknown) else v
seen p (SessionEvent.status_changed q info) v = if bytes_beq q p then (v.0, info.state) else v
seen p SessionEvent.connected v = v
seen p (SessionEvent.connection_error message) v = v
seen p (SessionEvent.meta_updated q sm) v = v

abbrev pub replay : Bytes → List SessionEvent → View → View
replay p [] v = v
replay p (ev ∷ evs) v = replay p evs (seen p ev v)

-- What the worker knows of it.
abbrev pub view : Bytes → SessionManager → View
view p m = (has p m.known_sessions, liveness_at p m.prev_liveness)

pub replay-append :
    (p : Bytes) (xs ys : List SessionEvent) (v : View)
    → replay p (xs ++ ys) v ≡ replay p ys (replay p xs v)
replay-append p [] ys v = refl
replay-append p (x ∷ xs) ys v = replay-append p xs ys (seen p x v)

pub replay-appearances :
    (p : Bytes) (known current : List (Bytes × SessionMeta)) (b : Bool) (l : Liveness)
    → replay p (appearances known current) (b, l) ≡ ((b || (has p current && not (has p known))), l)
unfolding appearances
replay-appearances p known [] b l = ground arith
replay-appearances p known ((k, sm) ∷ current) b l = elim (Bool-cases (bytes_beq k p)) [
  | inl same ↦ ground (
    arith,
    replay-appearances p known current true l,
    replay-appearances p known current b l,
    same,
    ap (λ q. find q known) ((bytes_beq_iff k p).0 same),
  )
  | inr other ↦ ground (arith, replay-appearances p known current b l, other)
]

pub replay-disappearances :
    (p : Bytes) (current known : List (Bytes × SessionMeta)) (b : Bool) (l : Liveness)
    → replay p (disappearances current known) (b, l)
      ≡ (if has p known && not (has p current) then (false, Liveness.unknown) else (b, l))
unfolding disappearances
replay-disappearances p current [] b l = refl
replay-disappearances p current ((k, sm) ∷ known) b l = elim (Bool-cases (bytes_beq k p)) [
  | inl same ↦ ground (
    arith,
    replay-disappearances p current known false Liveness.unknown,
    replay-disappearances p current known b l,
    same,
    ap (λ q. find q current) ((bytes_beq_iff k p).0 same),
  )
  | inr other ↦ ground (arith, replay-disappearances p current known b l, other)
]

-- A step that pushes events which say nothing of presence and liveness, and leaves these alone.
pub record Quiet (m m' : SessionManager) : Type 0 where
  pub pushed : List SessionEvent
  pub queued : m'.events ≡ m.events ++ pushed
  pub unseen : (p : Bytes) (v : View) → replay p pushed v ≡ v
  pub same_known : m'.known_sessions ≡ m.known_sessions
  pub same_liveness_map : m'.prev_liveness ≡ m.prev_liveness

Quiet-refl : (m : SessionManager) → Quiet m m
Quiet-refl m = record {
  pushed = [];
  queued = sym (append-nil m.events);
  unseen = λ p v. refl;
  same_known = refl;
  same_liveness_map = refl;
}

Quiet-trans : {a b c : SessionManager} → Quiet a b → Quiet b c → Quiet a c
Quiet-trans {a} q r = record {
  pushed = q.pushed ++ r.pushed;
  queued =
      r.queued ∙ ap (λ evs. evs ++ r.pushed) q.queued ∙ append_assoc a.events q.pushed r.pushed;
  unseen = λ p v.
      replay-append p q.pushed r.pushed v ∙ ap (replay p r.pushed) (q.unseen p v) ∙ r.unseen p v;
  same_known = r.same_known ∙ q.same_known;
  same_liveness_map = r.same_liveness_map ∙ q.same_liveness_map;
}

Quiet-if :
    {m a b : SessionManager} (t : Bool) → Quiet m a → Quiet m b → Quiet m (if t then a else b)
Quiet-if true x y = x
Quiet-if false x y = y

fire_expired-Quiet :
    (now : ℕ) (prefix : Bytes) (deadline : Option ℕ) (m : SessionManager)
    → Quiet m (fire_expired now prefix deadline m)
unfolding fire_expired
fire_expired-Quiet now prefix none m = Quiet-refl m
fire_expired-Quiet now prefix (some deadline) m =
    Quiet-if (leb deadline now)
      (record {
        pushed = SessionEvent.meta_updated prefix _ ∷ [];
        queued = refl;
        unseen = λ p v. refl;
        same_known = refl;
        same_liveness_map = refl;
      })
      (Quiet-refl m)

same_fields-Quiet :
    (n now : ℕ) (prefix : Bytes) (previous : Option ℕ) (m : SessionManager)
    → Quiet m (same_fields n now prefix previous m)
unfolding same_fields
same_fields-Quiet n now prefix previous m =
    let q = fire_expired-Quiet now prefix (find prefix m.stabilize_deadline) (record m {
      prev_field_count = elim previous [
        | none ↦ assign prefix n m.prev_field_count
        | some _ ↦ m.prev_field_count
      ];
    }) in
    record {
      pushed = q.pushed;
      queued = q.queued;
      unseen = q.unseen;
      same_known = q.same_known;
      same_liveness_map = q.same_liveness_map;
    }

update_meta-Quiet :
    (c : Cycle) (s : Bytes × SessionMeta) (m : SessionManager) → Quiet m (update_meta c s m)
unfolding update_meta more_fields
update_meta-Quiet c (prefix, sm) m = elim (Option-cases (find prefix m.known_sessions)) [
  | inl e ↦ rw (e, update_meta) (Quiet-refl m)
  | inr (old, e) ↦
      let n = virtual_fields sm.hash_to_counters in
      rw (e, update_meta)
        (Quiet-if (ltb (at_least_zero (find prefix m.prev_field_count)) n)
          (record {
            pushed = [];
            queued = sym (append-nil m.events);
            unseen = λ p v. refl;
            same_known = refl;
            same_liveness_map = refl;
          })
          (same_fields-Quiet n (c.steady_now prefix) prefix (find prefix m.prev_field_count) m))
]

pub update_metas-Quiet :
    (c : Cycle) (current : List (Bytes × SessionMeta)) (m : SessionManager)
    → Quiet m (update_metas c current m)
unfolding update_metas
update_metas-Quiet c [] m = Quiet-refl m
update_metas-Quiet c (s ∷ current) m =
    Quiet-trans (update_meta-Quiet c s m) (update_metas-Quiet c current (update_meta c s m))

-- What step 5 pushes, and the liveness that it keeps.
unfoldable pub statuses :
    Cycle → List (Bytes × SessionMeta) → List (Bytes × Liveness) → List SessionEvent
statuses c [] prev = []
statuses c ((k, sm) ∷ current) prev =
    let info = probe_liveness c.liveness (c.probe k) sm in
    let more = statuses c current (assign k info.state prev) in
    if same_liveness info.state (liveness_at k prev)
    then more
    else SessionEvent.status_changed k info ∷ more

unfoldable pub probed :
    Cycle → List (Bytes × SessionMeta) → List (Bytes × Liveness) → List (Bytes × Liveness)
probed c [] prev = prev
probed c ((k, sm) ∷ current) prev =
    probed c current (assign k (probe_liveness c.liveness (c.probe k) sm).state prev)

pub update_livenesses_lem :
    (c : Cycle) (current : List (Bytes × SessionMeta)) (m : SessionManager)
    → update_livenesses c current m ≡ record m {
      events = m.events ++ statuses c current m.prev_liveness;
      prev_liveness = probed c current m.prev_liveness;
    }
unfolding update_livenesses statuses probed
update_livenesses_lem c [] m = ap (λ evs. record m { events = evs }) (sym (append-nil m.events))
update_livenesses_lem c ((k, sm) ∷ current) m =
    let info = probe_liveness c.liveness (c.probe k) sm in
    let next = assign k info.state m.prev_liveness in
    update_livenesses_lem c current (update_liveness c (k, sm) m)
    ∙ elim (Bool-cases (same_liveness info.state (liveness_at k m.prev_liveness))) [
      | inl e ↦ rw (e, update_liveness) refl
      | inr e ↦
          rw (e, update_liveness)
            (ap (λ evs. record m { events = evs; prev_liveness = probed c current next })
              (append_assoc m.events (SessionEvent.status_changed k info ∷ [])
                (statuses c current next)))
    ]

same_liveness-eq : (a b : Liveness) → same_liveness a b ≡ true → a ≡ b
unfolding same_liveness
same_liveness-eq Liveness.unknown Liveness.unknown e = refl
same_liveness-eq Liveness.live Liveness.live e = refl
same_liveness-eq Liveness.going_offline Liveness.going_offline e = refl
same_liveness-eq Liveness.offline Liveness.offline e = refl
same_liveness-eq Liveness.historical Liveness.historical e = refl
same_liveness-eq _ _ e = cc

liveness_kept :
    (p k : Bytes) (l : Liveness) (prev : List (Bytes × Liveness))
    → l ≡ liveness_at k prev
    → liveness_at p (assign k l prev) ≡ liveness_at p prev
liveness_kept p k l prev e = elim (Bool-cases (bytes_beq k p)) [
  | inl same ↦ ground (
    arith,
    liveness_at-assign p k l prev,
    same,
    ap (λ q. liveness_at q prev) ((bytes_beq_iff k p).0 same),
  )
  | inr other ↦ ground (arith, liveness_at-assign p k l prev, other)
]

told :
    (p k : Bytes) (info : LivenessInfo) (prev : List (Bytes × Liveness)) (b : Bool)
    → seen p (SessionEvent.status_changed k info) (b, liveness_at p prev)
      ≡ (b, liveness_at p (assign k info.state prev))
told p k info prev b = elim (Bool-cases (bytes_beq k p)) [
  | inl e ↦ ground (arith, liveness_at-assign p k info.state prev, e)
  | inr e ↦ ground (arith, liveness_at-assign p k info.state prev, e)
]

-- A reader who had the liveness of before has that of after.
pub replay-statuses :
    (p : Bytes) (c : Cycle) (current : List (Bytes × SessionMeta)) (prev : List (Bytes × Liveness))
    (b : Bool)
    → replay p (statuses c current prev) (b, liveness_at p prev)
      ≡ (b, liveness_at p (probed c current prev))
unfolding statuses probed
replay-statuses p c [] prev b = refl
replay-statuses p c ((k, sm) ∷ current) prev b =
    let info = probe_liveness c.liveness (c.probe k) sm in
    let next = assign k info.state prev in
    let rest = replay-statuses p c current next b in
    elim (Bool-cases (same_liveness info.state (liveness_at k prev))) [
      | inl e ↦ rw e (
          ap (λ l. replay p (statuses c current next) (b, l))
            (sym (
              liveness_kept p k info.state prev
                (same_liveness-eq info.state (liveness_at k prev) e)))
          ∙ rest)
      | inr e ↦ rw e (ap (replay p (statuses c current next)) (told p k info prev b) ∙ rest)
    ]

-- Nothing is said of the sessions that are gone.
pub replay-statuses_gone :
    (p : Bytes) (c : Cycle) (current : List (Bytes × SessionMeta)) (prev : List (Bytes × Liveness))
    (v : View)
    → has p current ≡ false
    → replay p (statuses c current prev) v ≡ v
unfolding statuses
replay-statuses_gone p c [] prev v gone = refl
replay-statuses_gone p c ((k, sm) ∷ current) prev v gone =
    let info = probe_liveness c.liveness (c.probe k) sm in
    let rest =
      replay-statuses_gone p c current (assign k info.state prev) v
        (ground (arith, has-cons p k sm current)) in
    elim (Bool-cases (same_liveness info.state (liveness_at k prev))) [
      | inl e ↦ rw e rest
      | inr e ↦ rw e (ground (arith, has-cons p k sm current, rest))
    ]

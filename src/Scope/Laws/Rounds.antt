-- ===== src/Scope/Laws/Rounds.antt =====
-- Rounds of the worker of kv8scope/SessionManager.cpp, as the reader of its events sees them.
use kv8_metrics.Prelude.{
  ◌≡◌, refl, sym, ap, ◌∙◌, Bool, true, false, not, ◌&&◌, ◌||◌, List, [], ◌∷◌, ◌++◌, append_assoc,
  append-nil, Bool-cases, inl, inr, if◌then◌else◌,
}
use kv8_metrics.Prelude.Bytes.{Bytes}
use kv8_metrics.Prelude.Assoc.{bytes_eq}
use kv8_metrics.Registry.{SessionMeta}
use kv8_metrics.Registry.Ordered.{in_key_order, bytes_less}
use kv8_metrics.Scope.Liveness.{Liveness}
use kv8_metrics.Scope.Sessions.{
  SessionEvent, SessionManager, Cycle, Listing, appearances, disappearances, update_metas,
  forget_gone, liveness_at, update_livenesses, current_sessions, apply_current, note_connected,
  fail_cycle, with_channels, run_one_poll_cycle, thread_round, thread_func,
}
use kv8_metrics.Scope.Laws.Maps.{has, has-in_key_order, liveness_at-still_there}
use kv8_metrics.Scope.Laws.Mirror.{
  View, replay, view, replay-append, replay-appearances, replay-disappearances, Quiet,
  update_metas-Quiet, statuses, probed, update_livenesses_lem, replay-statuses,
  replay-statuses_gone,
}

-- Presence before and after, and the liveness kept.
present :
    (known current : Bool) (l : Liveness) (ordered : Bool)
    → ordered ≡ known
    → (known ≡ false → l ≡ Liveness.unknown)
    → ◌≡◌ {A = View}
        (if ordered && not current
          then (false, Liveness.unknown)
          else ((known || (current && not known)), l))
        (current, (if current then l else Liveness.unknown))
present true true l ordered e tracked = rw e refl
present true false l ordered e tracked = rw e refl
present false true l ordered e tracked = rw e refl
present false false l ordered e tracked = rw e (ap (λ k. (false, k)) (tracked refl))

-- Liveness is kept for known sessions only.
abbrev pub Tracked : SessionManager → Type 0
Tracked m =
    (p : Bytes) → has p m.known_sessions ≡ false → liveness_at p m.prev_liveness ≡ Liveness.unknown

-- A step that pushes events from which the reader learns what changed.
pub record Mirrored (m m' : SessionManager) : Type 0 where
  pub pushed : List SessionEvent
  pub queued : m'.events ≡ m.events ++ pushed
  pub mirrored : (p : Bytes) → replay p pushed (view p m) ≡ view p m'
  pub tracked : Tracked m'

module _ (c : Cycle) (current : List (Bytes × SessionMeta)) (m : SessionManager)
    (ok : Tracked m) where
  differences : List SessionEvent
  differences =
      appearances m.known_sessions current
      ++ disappearances current (in_key_order bytes_less m.known_sessions)

  diffed : SessionManager
  diffed = record m {
    events =
        m.events
        ++ appearances m.known_sessions current
        ++ disappearances current (in_key_order bytes_less m.known_sessions);
  }

  replay-differences :
      (p : Bytes)
      → replay p differences (view p m) ≡ (
        has p current,
        (if has p current then liveness_at p m.prev_liveness else Liveness.unknown),
      )
  unfolding differences
  replay-differences p =
      replay-append p (appearances m.known_sessions current) _ (view p m)
      ∙ ap (replay p (disappearances current (in_key_order bytes_less m.known_sessions))) (
          replay-appearances p m.known_sessions current (has p m.known_sessions)
            (liveness_at p m.prev_liveness))
      ∙ replay-disappearances p current (in_key_order bytes_less m.known_sessions) _ _
      ∙ present (has p m.known_sessions) (has p current) (liveness_at p m.prev_liveness)
          (has p (in_key_order bytes_less m.known_sessions))
          (has-in_key_order bytes_less p m.known_sessions) (ok p)

  quiet : Quiet diffed (update_metas c current diffed)
  quiet = update_metas-Quiet c current diffed

  updated : SessionManager
  updated = forget_gone current (update_metas c current diffed)

  updated-liveness : updated.prev_liveness ≡ m.prev_liveness
  unfolding updated forget_gone diffed
  updated-liveness = quiet.same_liveness_map

  probed-events :
      (update_livenesses c current updated).events
      ≡ m.events ++ (differences ++ (quiet.pushed ++ statuses c current m.prev_liveness))
  unfolding updated forget_gone diffed differences
  probed-events =
      ap (λ s. s.events) (update_livenesses_lem c current updated)
      ∙ ap (λ l. updated.events ++ statuses c current l) updated-liveness
      ∙ ap (λ evs. evs ++ statuses c current m.prev_liveness) quiet.queued
      ∙ simp append_assoc

  probed-liveness :
      (update_livenesses c current updated).prev_liveness ≡ probed c current m.prev_liveness
  unfolding updated
  probed-liveness =
      ap (λ s. s.prev_liveness) (update_livenesses_lem c current updated)
      ∙ ap (probed c current) updated-liveness

  liveness_after :
      (p : Bytes)
      → liveness_at p (apply_current c current m).prev_liveness ≡ (
          if has p current
          then liveness_at p (probed c current m.prev_liveness)
          else Liveness.unknown)
  unfolding apply_current updated diffed
  liveness_after p =
      liveness_at-still_there p current (update_livenesses c current updated).prev_liveness
      ∙ ap (λ l. if has p current then liveness_at p l else Liveness.unknown) probed-liveness

  replay-all :
      (p : Bytes)
      → replay p (differences ++ (quiet.pushed ++ statuses c current m.prev_liveness)) (view p m)
        ≡ (
          has p current,
          (if has p current
              then liveness_at p (probed c current m.prev_liveness)
              else Liveness.unknown),
        )
  replay-all p =
      replay-append p differences _ (view p m)
      ∙ ap (replay p (quiet.pushed ++ statuses c current m.prev_liveness)) (replay-differences p)
      ∙ replay-append p quiet.pushed _ _
      ∙ ap (replay p (statuses c current m.prev_liveness)) (quiet.unseen p _)
      ∙ elim (Bool-cases (has p current)) [
        | inl here ↦ rw here (replay-statuses p c current m.prev_liveness true)
        | inr gone ↦ replay-statuses_gone p c current m.prev_liveness _ gone ∙ rw gone refl
      ]

  apply_current-Mirrored : Mirrored m (apply_current c current m)
  unfolding apply_current updated diffed
  apply_current-Mirrored = record {
    pushed = differences ++ (quiet.pushed ++ statuses c current m.prev_liveness);
    queued = probed-events;
    mirrored = λ p. replay-all p ∙ ap (λ l. (has p current, l)) (sym (liveness_after p));
    tracked = λ p gone. liveness_after p ∙ rw gone refl;
  }

Mirrored-refl : {m : SessionManager} → Tracked m → Mirrored m m
Mirrored-refl {m} ok = record {
  pushed = [];
  queued = sym (append-nil m.events);
  mirrored = λ p. refl;
  tracked = ok;
}

Mirrored-trans : {a b c : SessionManager} → Mirrored a b → Mirrored b c → Mirrored a c
Mirrored-trans {a} q r = record {
  pushed = q.pushed ++ r.pushed;
  queued =
      r.queued ∙ ap (λ evs. evs ++ r.pushed) q.queued ∙ append_assoc a.events q.pushed r.pushed;
  mirrored = λ p.
      replay-append p q.pushed r.pushed (view p a)
      ∙ ap (replay p r.pushed) (q.mirrored p)
      ∙ r.mirrored p;
  tracked = r.tracked;
}

Mirrored-if :
    {m a b : SessionManager} (t : Bool)
    → Mirrored m a
    → Mirrored m b
    → Mirrored m (if t then a else b)
Mirrored-if true q r = q
Mirrored-if false q r = r

Mirrored-pair_if :
    {m : SessionManager} (t : Bool) (a b : SessionManager × Bool)
    → Mirrored m a.0
    → Mirrored m b.0
    → Mirrored m (if t then a else b).0
Mirrored-pair_if true a b q r = q
Mirrored-pair_if false a b q r = r

-- The consumer is not seen.
Mirrored-consumer :
    {m m' : SessionManager} (b : Bool) → Mirrored m m' → Mirrored m (record m' { has_consumer = b })
Mirrored-consumer b q = record {
  pushed = q.pushed;
  queued = q.queued;
  mirrored = q.mirrored;
  tracked = q.tracked;
}

fail_cycle-Mirrored :
    (message : Bytes) (m : SessionManager) → Tracked m → Mirrored m (fail_cycle message m).0
unfolding fail_cycle
fail_cycle-Mirrored message m ok = record {
  pushed = SessionEvent.connection_error message ∷ [];
  queued = refl;
  mirrored = λ p. refl;
  tracked = ok;
}

note_connected-Mirrored : (m : SessionManager) → Tracked m → Mirrored m (note_connected m)
unfolding note_connected
note_connected-Mirrored m ok = Mirrored-if m.ever_connected (Mirrored-refl ok) (record {
  pushed = SessionEvent.connected ∷ [];
  queued = refl;
  mirrored = λ p. refl;
  tracked = ok;
})

with_channels-Mirrored :
    (c : Cycle) (l : Listing) (m : SessionManager) → Tracked m → Mirrored m (with_channels c l m).0
unfolding with_channels
with_channels-Mirrored c (Listing.thrown what) m ok = fail_cycle-Mirrored _ m ok
with_channels-Mirrored c Listing.thrown_unknown m ok = fail_cycle-Mirrored _ m ok
with_channels-Mirrored c (Listing.listed channels) m ok =
    let q = note_connected-Mirrored m ok in
    Mirrored-trans q (
      apply_current-Mirrored c (in_key_order bytes_less (current_sessions c.discover channels []))
        (note_connected m) q.tracked)

-- The state with its consumer created.
Mirrored-created :
    {m m' : SessionManager} → Mirrored (record m { has_consumer = true }) m' → Mirrored m m'
Mirrored-created q = record {
  pushed = q.pushed;
  queued = q.queued;
  mirrored = q.mirrored;
  tracked = q.tracked;
}

cycle-Mirrored :
    (c : Cycle) (m : SessionManager) → Tracked m → Mirrored m (run_one_poll_cycle c m).0
unfolding run_one_poll_cycle
cycle-Mirrored c m ok =
    Mirrored-pair_if m.has_consumer _ _ (with_channels-Mirrored c c.list_channels m ok) (
      Mirrored-pair_if c.can_create _ _
        (Mirrored-created
          (with_channels-Mirrored c c.list_channels (record m { has_consumer = true }) ok))
        (fail_cycle-Mirrored _ m ok))

round-Mirrored : (c : Cycle) (m : SessionManager) → Tracked m → Mirrored m (thread_round c m)
unfolding thread_round
round-Mirrored c m ok =
    let q = cycle-Mirrored c m ok in
    Mirrored-if (run_one_poll_cycle c m).1 q (Mirrored-consumer false q)

-- For any rounds of the worker, whatever the consumer answers in them, from a state that keeps the
-- liveness of known sessions only: the events that they push tell a reader which sessions are there and
-- the liveness of each, the same as the worker's.
pub thread_func-Mirrored :
    (cycles : List Cycle) (m : SessionManager) → Tracked m → Mirrored m (thread_func cycles m)
unfolding thread_func
thread_func-Mirrored [] m ok = Mirrored-refl ok
thread_func-Mirrored (c ∷ cycles) m ok =
    let q = round-Mirrored c m ok in
    Mirrored-trans q (thread_func-Mirrored cycles (thread_round c m) q.tracked)

-- ===== src/Scope/Laws/Failures.antt =====
-- Rounds of kv8scope/SessionManager.cpp that fail, and the restart.
use kv8_metrics.Prelude.{
  ◌≡◌, ◌⊎◌, inl, inr, refl, sym, ap, ◌∙◌, Bool, true, false, List, [], ◌∷◌, ◌++◌, Bool-cases,
  if◌then◌else◌,
}
use kv8_metrics.Prelude.Bytes.{Bytes, codes}
use kv8_metrics.Scope.Liveness.{Liveness}
use kv8_metrics.Scope.Sessions.{
  SessionEvent, SessionManager, Cycle, Listing, push_event, liveness_at, fail_cycle, with_channels,
  run_one_poll_cycle, thread_round, thread_func, start, stop, restart,
}
use kv8_metrics.Scope.Laws.Mirror.{replay, view}
use kv8_metrics.Scope.Laws.Rounds.{Tracked, thread_func-Mirrored}

-- What goes wrong in a round, and the message for it.
pub data Fails (c : Cycle) (m : SessionManager) : Bytes → Type 0 where
  not_created :
      m.has_consumer ≡ false
      → c.can_create ≡ false
      → Fails c m (codes "Failed to create Kafka consumer (bad config?)")
  thrown :
      {what : Bytes}
      → (m.has_consumer ≡ true) ⊎ (c.can_create ≡ true)
      → c.list_channels ≡ Listing.thrown what
      → Fails c m (codes "ListChannels failed: " ++ what)
  thrown_unknown :
      (m.has_consumer ≡ true) ⊎ (c.can_create ≡ true)
      → c.list_channels ≡ Listing.thrown_unknown
      → Fails c m (codes "ListChannels failed (unknown error)")

-- One error is reported, the consumer is dropped, and nothing else changes.
abbrev pub failed_with : Bytes → SessionManager → SessionManager
failed_with message m = record m {
  events = m.events ++ SessionEvent.connection_error message ∷ [];
  has_consumer = false;
}

-- What `thread_round` makes of the result of a cycle.
abbrev after_cycle : SessionManager × Bool → SessionManager
after_cycle r = if r.1 then r.0 else record r.0 { has_consumer = false }

module _ (c : Cycle) (m : SessionManager) (message : Bytes)
    (e : (m' : SessionManager) → with_channels c c.list_channels m' ≡ fail_cycle message m') where
  created_cycle : SessionManager × Bool
  unfolding fail_cycle
  created_cycle =
      if c.can_create
      then with_channels c c.list_channels (record m { has_consumer = true })
      else fail_cycle (codes "Failed to create Kafka consumer (bad config?)") m

  with_consumer : m.has_consumer ≡ true → thread_round c m ≡ failed_with message m
  unfolding thread_round run_one_poll_cycle fail_cycle push_event created_cycle
  with_consumer had =
      ap after_cycle
        (ap (λ b. if b then with_channels c c.list_channels m else created_cycle) had ∙ e m)

  after_creation :
      m.has_consumer ≡ false → c.can_create ≡ true → thread_round c m ≡ failed_with message m
  unfolding thread_round run_one_poll_cycle fail_cycle push_event created_cycle
  after_creation none_yet created = ap after_cycle (
      ap (λ b. if b then with_channels c c.list_channels m else created_cycle) none_yet
      ∙ ap
          (λ b.
            if b
            then with_channels c c.list_channels (record m { has_consumer = true })
            else fail_cycle (codes "Failed to create Kafka consumer (bad config?)") m)
          created
      ∙ e (record m { has_consumer = true }))

  after_channels :
      (m.has_consumer ≡ true) ⊎ (c.can_create ≡ true) → thread_round c m ≡ failed_with message m
  after_channels (inl had) = with_consumer had
  after_channels (inr created) = elim (Bool-cases m.has_consumer) [
    | inl had ↦ with_consumer had
    | inr none_yet ↦ after_creation none_yet created
  ]

-- For a round that fails, for any of the reasons: one error is reported with the message for the
-- reason, the consumer is dropped, so that the next round creates one, and nothing else changes.
pub failed_round :
    (c : Cycle) (m : SessionManager) (message : Bytes)
    → Fails c m message
    → thread_round c m ≡ failed_with message m
unfolding with_channels thread_round run_one_poll_cycle fail_cycle push_event
failed_round c m _ (Fails.not_created e1 e2) = rw (e1, e2) refl
failed_round c m _ (Fails.thrown there e) =
    after_channels c m _ (λ m'. ap (λ l. with_channels c l m') e) there
failed_round c m _ (Fails.thrown_unknown there e) =
    after_channels c m _ (λ m'. ap (λ l. with_channels c l m') e) there

restart-queue : (m : SessionManager) → (restart m).events ≡ []
unfolding restart start stop
restart-queue m = elim (Bool-cases m.running) [ inl e ↦ rw e refl | inr e ↦ rw e refl ]

restart-view : (m : SessionManager) (p : Bytes) → view p (restart m) ≡ (false, Liveness.unknown)
unfolding restart start stop liveness_at
restart-view m p = elim (Bool-cases m.running) [ inl e ↦ rw e refl | inr e ↦ rw e refl ]

restart-Tracked : (m : SessionManager) → Tracked (restart m)
restart-Tracked m p gone = ap (λ v. v.1) (restart-view m p)

-- After a restart in any state, and any rounds of the worker since then: a reader who starts with no
-- sessions learns from the queued events which sessions there are and the liveness of each.
pub restart_mirrored :
    (m : SessionManager) (cycles : List Cycle) (p : Bytes)
    → replay p (thread_func cycles (restart m)).events (false, Liveness.unknown)
      ≡ view p (thread_func cycles (restart m))
restart_mirrored m cycles p =
    let q = thread_func-Mirrored cycles (restart m) (restart-Tracked m) in
    ap (λ evs. replay p evs (false, Liveness.unknown))
      (q.queued ∙ ap (λ evs. evs ++ q.pushed) (restart-queue m))
    ∙ ap (replay p q.pushed) (sym (restart-view m p))
    ∙ q.mirrored p

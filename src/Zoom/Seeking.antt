-- ===== src/Zoom/Seeking.antt =====
-- Seeking in kv8zoom/ZoomBridge.cpp: the message of a client and the tick that takes it up.
use kv8_metrics.Zoom.Silence.{frames}
use kv8_metrics.Zoom.Playback.{ticks, ticks-Silent}
use kv8_metrics.Prelude.{
  ℕ, zero, suc, ◌+◌, ◌*◌, ◌/◌, ◌<◌, ◌≤◌, ◌∙◌, arith, ◌++◌, ◌≡◌, refl, sym, ap, subst, Bool, true,
  false, not, ltb, List, none, some, [], ◌∷◌, if◌then◌else◌,
}
use kv8_metrics.Prelude.Int.{ℤ}
use kv8_metrics.Registry.{SessionMeta, is_empty}
use kv8_metrics.Zoom.Bridge.{Broadcast, Subscription, Bridge}
use kv8_metrics.Zoom.Timer.{World, Tick, process_seek, on_timer}
use kv8_metrics.Zoom.Clients.{ClientMessage, on_client_message}
use kv8_metrics.Zoom.Catalog.{seek_subscription}

-- The bridge after the tick that takes a seek up.
record Sought {F : Type 0} (w : World F) (ts : ℤ) (b b' : Bridge F) : Type 0 where
  reads_from : b'.subscriptions ≡ b.subscriptions ++ seek_subscription b.active_meta ts ∷ []
  default_decim : b'.decim ≡ w.new_decim
  same_playback : b'.paused ≡ b.paused
  quiet : b'.sent ≡ b.sent
  served : b'.pending_seek_ts ≡ none
  same_switch : b'.pending_session_id ≡ b.pending_session_id
  same_pause : b'.pending_pause ≡ b.pending_pause

holds-else :
    {A : Type 0} (P : A → Type 0) (x : A) {y : A} (t : Bool)
    → t ≡ false
    → P y
    → P (if t then x else y)
holds-else P x {y} t e p = subst (λ s. P (if s then x else y)) (sym e) p

seek-Sought :
    {F : Type 0} (w : World F) (t : Tick) (z ts : ℤ) (b : Bridge F)
    → b.pending_session_id ≡ []
    → is_empty b.active_session_id ≡ false
    → Sought w ts b (
        on_timer w t (
          on_client_message
            (ClientMessage.seek (some ts))
            (on_client_message (ClientMessage.camera (some z)) b)))
unfolding on_timer process_seek on_client_message is_empty
seek-Sought w t z ts b none_asked active =
    holds-else (Sought w ts b) _ (not (is_empty b.pending_session_id))
      (ap (λ s. not (is_empty s)) none_asked)
      (holds-else (Sought w ts b) _ (is_empty b.active_session_id) active (record {
        reads_from = refl;
        default_decim = refl;
        same_playback = refl;
        quiet = refl;
        served = refl;
        same_switch = refl;
        same_pause = refl;
      }))

-- Where a session is read from for a time in microseconds: from its start for a time that is not positive, and
-- else from the millisecond that the time falls into.
pub data StartsAt (meta : SessionMeta) : ℤ → Subscription → Type 0 where
  no_time : StartsAt meta (ℤ.pos 0) (Subscription.from_start meta)
  before_all : {n : ℕ} → StartsAt meta (ℤ.negsuc n) (Subscription.from_start meta)
  within :
      {n ms : ℕ}
      → 0 < n
      → ms * 1000 ≤ n
      → n < ms * 1000 + 1000
      → StartsAt meta (ℤ.pos n) (Subscription.from_ms meta (ℤ.pos ms))

after_start :
    (meta : SessionMeta) (n : ℕ)
    → 0 < n
    → seek_subscription meta (ℤ.pos n) ≡ Subscription.from_ms meta (ℤ.pos (n / 1000))
unfolding seek_subscription
after_start meta n h =
    ap
      (λ t.
        if t then Subscription.from_ms meta (ℤ.pos (n / 1000)) else Subscription.from_start meta)
      {x = ltb 0 n} {y = true} (ground (arith, h))

seek_subscription-StartsAt :
    (meta : SessionMeta) (ts : ℤ) → StartsAt meta ts (seek_subscription meta ts)
unfolding seek_subscription
seek_subscription-StartsAt meta (ℤ.pos zero) = StartsAt.no_time
seek_subscription-StartsAt meta (ℤ.pos (suc n)) =
    subst (StartsAt meta (ℤ.pos (suc n))) (sym (after_start meta (suc n) (omega arith)))
      (StartsAt.within {n = suc n} {ms = suc n / 1000} (omega arith) (omega arith) (omega arith))
seek_subscription-StartsAt meta (ℤ.negsuc n) = StartsAt.before_all

-- What a seek has done, some ticks later.
pub record PausedSeek {F : Type 0} (w : World F) (ts : ℤ) (b b' : Bridge F) : Type 0 where
  pub read_from : Subscription
  pub starts : StartsAt b.active_meta ts read_from
  pub subscribed : b'.subscriptions ≡ b.subscriptions ++ read_from ∷ []
  pub pushed : List Broadcast
  pub queued : b'.sent ≡ b.sent ++ pushed
  pub no_frames : frames pushed ≡ 0
  pub default_decim : b'.decim ≡ w.new_decim
  pub still_paused : b'.paused ≡ true

-- While the playback of an active session is paused, and no switch and no change of the pause waits: a client sets its
-- zoom and then seeks. After any number of ticks, at least one, whatever the rings hold in them, the active session has been
-- subscribed to once, from the millisecond that the time falls into, or from its start for a time that is not
-- positive; no frame has been passed on, the playback is still paused, and the controller is a new
-- one: the zoom that the client has set is forgotten.
pub seek-PausedSeek :
    {F : Type 0} (w : World F) (t : Tick) (more : List Tick) (z ts : ℤ) (b : Bridge F)
    → b.pending_session_id ≡ []
    → is_empty b.active_session_id ≡ false
    → b.paused ≡ true
    → b.pending_pause ≡ none
    → PausedSeek w ts b (
        ticks w (t ∷ more) (
          on_client_message
            (ClientMessage.seek (some ts))
            (on_client_message (ClientMessage.camera (some z)) b)))
unfolding ticks
seek-PausedSeek w t more z ts b none_asked active still untoggled =
    let q = seek-Sought w t z ts b none_asked active in
    let r = ticks-Silent w more (record {
      is_paused = q.same_playback ∙ still;
      no_switch = q.same_switch ∙ none_asked;
      no_seek = q.served;
      no_toggle = q.same_pause ∙ untoggled;
    }) in
    record {
      read_from = seek_subscription b.active_meta ts;
      starts = seek_subscription-StartsAt b.active_meta ts;
      subscribed = r.same_subscriptions ∙ q.reads_from;
      pushed = r.pushed;
      queued = r.queued ∙ ap (λ s. s ++ r.pushed) q.quiet;
      no_frames = r.no_frames;
      default_decim = r.same_decim ∙ q.default_decim;
      still_paused = r.paused.is_paused;
    }

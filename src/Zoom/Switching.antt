-- ===== src/Zoom/Switching.antt =====
-- Selecting a session in kv8zoom/ZoomBridge.cpp: the message of a client and the tick that takes it up.
use kv8_metrics.Prelude.{
  ℕ, ◌++◌, ◌≡◌, ◌↔◌, refl, sym, subst, Bool, true, false, Option, none, some, List, [], ◌∷◌,
}
use kv8_metrics.Prelude.Bytes.{Bytes}
use kv8_metrics.Prelude.Int.{ℤ}
use kv8_metrics.Prelude.Assoc.{find, bytes_eq}
use kv8_metrics.Registry.{SessionMeta, is_empty}
use kv8_metrics.Zoom.Bridge.{Bridge, Broadcast, SessionInfo, Subscription, broadcast}
use kv8_metrics.Zoom.Catalog.{look_up, lives, seek_ms, subscription}
use kv8_metrics.Zoom.Timer.{World, Tick, session_list, tell, activate, switch_to_session, on_timer}
use kv8_metrics.Zoom.Clients.{ClientMessage, on_client_message}
use kv8_metrics.Zoom.Choosing.{Named, look_up-Named, StartOf, subscription-StartOf, lives_iff}

-- The bridge after a switch.
pub record Switched {F : Type 0} (w : World F) (prefix : Bytes) (meta : SessionMeta)
    (b b' : Bridge F) : Type 0 where
  pub live : Bool
  pub live_iff : (live ≡ true) ↔ (find prefix b.session_liveness ≡ some true)
  pub read_from : Subscription
  pub starts : StartOf w.latest_ms meta live read_from
  pub subscribed : b'.subscriptions ≡ b.subscriptions ++ read_from ∷ []
  pub active : b'.active_session_id ≡ meta.session_id
  pub same_live : b'.is_live ≡ live
  pub infos : List SessionInfo
  pub told :
      b'.sent
      ≡ (b.sent ++ Broadcast.session_selected meta.session_id meta.name ∷ [])
        ++ Broadcast.session_list infos meta.session_id ∷ []
  pub empty_frame : b'.assembler ≡ w.new_assembler
  pub empty_trail : b'.trail ≡ []
  pub no_times : b'.ts_latest ≡ ℤ.pos 0
  pub playing : b'.paused ≡ false
  pub served : b'.pending_session_id ≡ []
  pub seek_dropped : b'.pending_seek_ts ≡ none
  pub pause_waits : b'.pending_pause ≡ b.pending_pause

holds-some :
    {A B : Type 0} (P : B → Type 0) (y : B) (f : A → B) (o : Option A) (x : A)
    → o ≡ some x
    → P (f x)
    → P (elim o [ none ↦ y | some z ↦ f z ])
holds-some P y f o x e p = subst (λ s. P (elim s [ none ↦ y | some z ↦ f z ])) (sym e) p

activate-Switched :
    {F : Type 0} (w : World F) (clock : ℕ) (prefix : Bytes) (meta : SessionMeta) (b : Bridge F)
    → Switched w prefix meta b (activate w clock prefix meta (record b { pending_session_id = [] }))
unfolding activate tell broadcast session_list
activate-Switched w clock prefix meta b =
    let live = lives prefix b.session_liveness in
    record {
      live = live;
      live_iff = lives_iff prefix b.session_liveness;
      read_from = subscription meta (seek_ms w.latest_ms live meta.data_topics);
      starts = subscription-StartOf w.latest_ms live meta;
      subscribed = refl;
      active = refl;
      same_live = refl;
      infos = _;
      told = refl;
      empty_frame = refl;
      empty_trail = refl;
      no_times = refl;
      playing = refl;
      served = refl;
      seek_dropped = refl;
      pause_waits = refl;
    }

-- A client selects a session by a name that is not empty and is the prefix of a known session, or else the id of
-- exactly one. After the next tick it is active, whatever was active and whatever seek was waiting, and the clients are
-- told. It is read from its start, or, if it is live and its least topic has a record more than 30 seconds
-- after time 0, from 30 seconds before the newest one. The frame and the trail are empty and the playback
-- runs; a pause that was waiting still waits.
pub select-Switched :
    {F : Type 0} (w : World F) (t : Tick) (b : Bridge F) (c : ℕ) (s prefix : Bytes)
    (meta : SessionMeta)
    → Named (c ∷ s) b.all_sessions prefix meta
    → Switched w prefix meta b
        (on_timer w t (on_client_message (ClientMessage.select_session (some (c ∷ s))) b))
unfolding on_timer on_client_message is_empty switch_to_session
select-Switched w t b c s prefix meta named =
    holds-some (Switched w prefix meta b) _
      (λ found. activate w t.clock found.0 found.1 (record b { pending_session_id = [] }))
      (look_up (c ∷ s) b.all_sessions) (prefix, meta)
      (look_up-Named (c ∷ s) b.all_sessions prefix meta named)
      (activate-Switched w t.clock prefix meta b)

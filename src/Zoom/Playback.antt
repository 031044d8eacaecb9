-- ===== src/Zoom/Playback.antt =====
-- Pausing and passing on in kv8zoom/ZoomBridge.cpp.
use kv8_metrics.Prelude.{
  ℕ, ◌+◌, ◌*◌, ◌≡◌, refl, sym, ap, not, ◌&&◌, ◌||◌, List, [], ◌∷◌, length, leb, ◌==◌,
}
use kv8_metrics.Prelude.Int.{ℤ, int_lt}
use kv8_metrics.Registry.{is_empty}
use kv8_metrics.Zoom.Decimation.{Floats}
use kv8_metrics.Zoom.Frames.{Frame, NavPayload, AttPayload, MotPayload, WxPayload, has_minimum_data}
use kv8_metrics.Zoom.Bridge.{
  Broadcast, FilterOps, Bridge, broadcast, note_ts, updates_assembler, nav_frame, att_frame,
  mot_frame, wx_frame, drain_nav, drain_att, drain_mot, drain_wx,
}
use kv8_metrics.Zoom.Timer.{
  World, Tick, tell, session_list, take_pause, merge_fresh, timeline_at, trail_points, tell_trail,
  tell_view, data_consumed, auto_pause, periodic_view, periodic_timeline, drain_all, stream,
  on_timer,
}
use kv8_metrics.Zoom.Silence.{
  frames, Paused, Silent, Silent-refl, Silent-trans, Silent-if, Silent-keep, Silent-else,
  Silent-none, emit-paused,
}

module _ {F : Type 0} where
  module _ (fl : Floats) (ops : FilterOps F) (now_us : ℕ) where
    note_ts-Silent : (ts : ℤ) {b : Bridge F} → Paused b → Silent b (note_ts fl ops ts b)
    unfolding note_ts
    note_ts-Silent ts {b} p =
        Silent-if _ b (int_lt (ℤ.pos 0) ts) (Silent-keep p refl refl refl refl refl refl refl)
          (Silent-refl p)

    nav_frame-Silent :
        (pop : Frame NavPayload × ℕ) {b : Bridge F}
        → Paused b
        → Silent b (nav_frame fl ops now_us pop b)
    unfolding nav_frame
    nav_frame-Silent (f, clock) {b} p = emit-paused fl ops _ _ (
        Silent-trans
          (Silent-keep {b' = record b { last_frame_time = clock }} p refl refl refl refl refl refl
            refl)
          (λ q.
            Silent-trans (note_ts-Silent f.ts_us q)
              (λ r. Silent-keep r refl refl refl refl refl refl refl)))

    att_frame-Silent :
        (pop : Frame AttPayload × ℕ) {b : Bridge F}
        → Paused b
        → Silent b (att_frame fl ops now_us pop b)
    unfolding att_frame
    att_frame-Silent (f, clock) {b} p = emit-paused fl ops _ _ (
        Silent-if _ _ (updates_assembler fl ops f.ts_us b)
          (Silent-keep p refl refl refl refl refl refl refl)
          (Silent-keep p refl refl refl refl refl refl refl))

    mot_frame-Silent :
        (f : Frame MotPayload) {b : Bridge F} → Paused b → Silent b (mot_frame fl ops now_us f b)
    unfolding mot_frame
    mot_frame-Silent f p = emit-paused fl ops _ _ (Silent-keep p refl refl refl refl refl refl refl)

    wx_frame-Silent :
        (f : Frame WxPayload) {b : Bridge F} → Paused b → Silent b (wx_frame fl ops now_us f b)
    unfolding wx_frame
    wx_frame-Silent f p = emit-paused fl ops _ _ (Silent-keep p refl refl refl refl refl refl refl)

    drain_nav-Silent :
        (pops : List (Frame NavPayload × ℕ)) {b : Bridge F}
        → Paused b
        → Silent b (drain_nav fl ops now_us pops b)
    unfolding drain_nav
    drain_nav-Silent [] p = Silent-refl p
    drain_nav-Silent (pop ∷ pops) p = Silent-trans (nav_frame-Silent pop p) (drain_nav-Silent pops)

    drain_att-Silent :
        (pops : List (Frame AttPayload × ℕ)) {b : Bridge F}
        → Paused b
        → Silent b (drain_att fl ops now_us pops b)
    unfolding drain_att
    drain_att-Silent [] p = Silent-refl p
    drain_att-Silent (pop ∷ pops) p = Silent-trans (att_frame-Silent pop p) (drain_att-Silent pops)

    drain_mot-Silent :
        (pops : List (Frame MotPayload)) {b : Bridge F}
        → Paused b
        → Silent b (drain_mot fl ops now_us pops b)
    unfolding drain_mot
    drain_mot-Silent [] p = Silent-refl p
    drain_mot-Silent (pop ∷ pops) p = Silent-trans (mot_frame-Silent pop p) (drain_mot-Silent pops)

    drain_wx-Silent :
        (pops : List (Frame WxPayload)) {b : Bridge F}
        → Paused b
        → Silent b (drain_wx fl ops now_us pops b)
    unfolding drain_wx
    drain_wx-Silent [] p = Silent-refl p
    drain_wx-Silent (pop ∷ pops) p = Silent-trans (wx_frame-Silent pop p) (drain_wx-Silent pops)

  module _ (w : World F) where
    tell-Silent :
        (msg : Broadcast) {b : Bridge F}
        → frames (msg ∷ []) ≡ 0
        → Paused b
        → Silent b (tell w msg b)
    unfolding tell broadcast
    tell-Silent msg e p = record {
      pushed = msg ∷ [];
      queued = refl;
      no_frames = e;
      same_decim = refl;
      same_subscriptions = refl;
      paused = record {
        is_paused = p.is_paused;
        no_switch = p.no_switch;
        no_seek = p.no_seek;
        no_toggle = p.no_toggle;
      };
    }

    drain_all-Silent : (t : Tick) {b : Bridge F} → Paused b → Silent b (drain_all w t b)
    unfolding drain_all
    drain_all-Silent t p =
        Silent-trans
          (Silent-trans
            (Silent-trans (drain_nav-Silent w.floats w.filter t.now_us t.nav_pops p)
              (drain_att-Silent w.floats w.filter t.now_us t.att_pops))
            (drain_mot-Silent w.floats w.filter t.now_us t.mot_pops))
          (drain_wx-Silent w.floats w.filter t.now_us t.wx_pops)

    tell_trail-Silent : {b : Bridge F} → Paused b → Silent b (tell_trail w b)
    unfolding tell_trail
    tell_trail-Silent {b} p =
        Silent-if b _ (length (trail_points w b) == 0) (Silent-refl p) (tell-Silent _ refl p)

    tell_view-Silent : {b : Bridge F} → Paused b → Silent b (tell_view w b)
    unfolding tell_view
    tell_view-Silent {b} p =
        Silent-trans
          (Silent-if _ b (has_minimum_data b.assembler)
            (tell-Silent (Broadcast.snapshot b.assembler) refl p) (Silent-refl p))
          tell_trail-Silent

    auto_pause-Silent : (clock : ℕ) {b : Bridge F} → Paused b → Silent b (auto_pause w clock b)
    unfolding auto_pause timeline_at
    auto_pause-Silent clock {b} p =
        Silent-if _ b (data_consumed w clock b)
          (Silent-trans
            (Silent-trans
              (Silent-trans (Silent-keep p refl refl refl (sym p.is_paused) refl refl refl)
                tell_view-Silent)
              (tell-Silent _ refl))
            (λ q. Silent-keep q refl refl refl refl refl refl refl))
          (Silent-refl p)

    periodic_view-Silent :
        (clock : ℕ) {b : Bridge F} → Paused b → Silent b (periodic_view w clock b)
    unfolding periodic_view
    periodic_view-Silent clock {b} p =
        Silent-if _ b (leb (b.last_snapshot + w.snapshot_interval_s * 1000) clock)
          (Silent-trans (tell_view-Silent p)
            (λ q. Silent-keep q refl refl refl refl refl refl refl))
          (Silent-refl p)

    periodic_timeline-Silent :
        (clock : ℕ) {b : Bridge F} → Paused b → Silent b (periodic_timeline w clock b)
    unfolding periodic_timeline timeline_at
    periodic_timeline-Silent clock {b} p =
        Silent-if _ b (int_lt (ℤ.pos 0) b.ts_latest && leb (b.last_timeline + 1000) clock)
          (Silent-trans (tell-Silent _ refl p)
            (λ q. Silent-keep q refl refl refl refl refl refl refl))
          (Silent-refl p)

    stream-Silent : (t : Tick) {b : Bridge F} → Paused b → Silent b (stream w t b)
    unfolding stream
    stream-Silent t {b} p =
        Silent-if b _ (t.connections == 0 || is_empty b.active_session_id) (Silent-refl p) (
          Silent-trans
            (Silent-trans (Silent-trans (drain_all-Silent t p) (auto_pause-Silent t.clock))
              (periodic_view-Silent t.clock))
            (periodic_timeline-Silent t.clock))

    merge_fresh-Silent : {b : Bridge F} → Paused b → Silent b (merge_fresh w b)
    unfolding merge_fresh session_list
    merge_fresh-Silent {b} p = Silent-if b _ (not b.sessions_dirty) (Silent-refl p) (
        Silent-if _ _ (length b.fresh_sessions == 0)
          (Silent-keep p refl refl refl refl refl refl refl)
          (Silent-trans (Silent-keep p refl refl refl refl refl refl refl) (tell-Silent _ refl)))

    on_timer-Silent : (t : Tick) {b : Bridge F} → Paused b → Silent b (on_timer w t b)
    unfolding on_timer take_pause is_empty
    on_timer-Silent t {b} p =
        Silent-else _ (not (is_empty b.pending_session_id)) (ap (λ s. not (is_empty s)) p.no_switch)
          (Silent-none _ b.pending_seek_ts p.no_seek (
            Silent-trans
              (Silent-trans (Silent-none _ b.pending_pause p.no_toggle (Silent-refl p))
                merge_fresh-Silent)
              (stream-Silent t)))

    -- The bridge after a list of ticks.
    unfoldable pub ticks : List Tick → Bridge F → Bridge F
    ticks [] b = b
    ticks (t ∷ ts) b = ticks ts (on_timer w t b)

    -- While the playback is paused and the clients ask for nothing, the ticks of the timer pass no frame on, whatever
    -- the rings hold and whatever the discovery had found before, leave the decimation and the subscriptions as they
    -- are, and the playback paused.
    pub ticks-Silent : (ts : List Tick) {b : Bridge F} → Paused b → Silent b (ticks ts b)
    unfolding ticks
    ticks-Silent [] p = Silent-refl p
    ticks-Silent (t ∷ ts) p = Silent-trans (on_timer-Silent t p) (ticks-Silent ts)

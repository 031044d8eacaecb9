-- ===== src/Zoom/Timer.antt =====
-- What class ZoomBridge does on its timer and for its clients, kv8zoom/ZoomBridge.cpp. A tick is one
-- call of the timer; what the rings, the reader and the clock give in it is an argument.
use kv8_metrics.Prelude.{
  ℕ, ◌+◌, ◌*◌, Bool, true, false, not, ◌&&◌, ◌||◌, none, some, List, [], ◌∷◌, ◌++◌, length, map,
  ltb, leb, ◌==◌, if◌then◌else◌,
}
use kv8_metrics.Prelude.Bytes.{Bytes}
use kv8_metrics.Prelude.Assoc.{bytes_eq}
use kv8_metrics.Prelude.Int.{ℤ, int_lt}
use kv8_metrics.Registry.{SessionMeta, is_empty}
use kv8_metrics.Registry.Ordered.{in_key_order, bytes_less}
use kv8_metrics.Zoom.Decimation.{Controller, Floats}
use kv8_metrics.Zoom.Trail.{TrailPoint, Metric, simplify}
use kv8_metrics.Zoom.Frames.{
  Frame, NavPayload, AttPayload, MotPayload, WxPayload, OutputFrame, has_minimum_data,
}
use kv8_metrics.Zoom.Bridge.{
  SessionInfo, Broadcast, Subscription, FilterOps, Bridge, broadcast, drain_nav, drain_att,
  drain_mot, drain_wx,
}
use kv8_metrics.Zoom.Catalog.{
  session_ms, lives, session_info, look_up, seek_ms, subscription, seek_subscription, same_sessions,
}

-- What does not change: the configuration, and what is taken as an argument. `epsilon` is 2.0.
pub record World (F : Type 0) : Type 0 where
  pub floats : Floats
  pub metric : Metric
  pub epsilon : ℕ
  pub filter : FilterOps F
  pub new_decim : Controller
  pub new_assembler : OutputFrame
  pub snapshot_interval_s : ℕ
  pub sort : List SessionInfo → List SessionInfo
  -- GetTopicLatestTimestampMs and the two subscriptions, which give the number of feeds.
  pub latest_ms : Bytes → ℤ
  pub feeds_subscribed : Subscription → ℕ

-- One call of the timer. `clock` is the steady clock in milliseconds behind the drains.
pub record Tick : Type 0 where
  pub connections : ℕ
  pub now_us : ℕ
  pub clock : ℕ
  pub nav_pops : List (Frame NavPayload × ℕ)
  pub att_pops : List (Frame AttPayload × ℕ)
  pub mot_pops : List (Frame MotPayload)
  pub wx_pops : List (Frame WxPayload)

module _ {F : Type 0} (w : World F) where
  unfoldable pub session_list : Bridge F → Broadcast
  session_list b =
      Broadcast.session_list
        (w.sort (map (session_info b.session_liveness) (in_key_order bytes_less b.all_sessions)))
        b.active_session_id

  unfoldable pub tell : Broadcast → Bridge F → Bridge F
  tell msg b = broadcast w.floats w.filter msg b

  -- SwitchToSession, for a session that is found.
  unfoldable pub activate : ℕ → Bytes → SessionMeta → Bridge F → Bridge F
  activate clock prefix meta b =
      let live = lives prefix b.session_liveness in
      let sub = subscription meta (seek_ms w.latest_ms live meta.data_topics) in
      let active = record b {
        assembler = w.new_assembler;
        trail = [];
        att_filter = w.filter.fresh;
        decim = w.new_decim;
        last_snapshot = clock;
        ts_first = ℤ.pos 0;
        ts_latest = ℤ.pos 0;
        ts_emit = ℤ.pos 0;
        ts_session_start = ℤ.pos (session_ms meta * 1000);
        pending_seek_ts = none;
        offline_load_done = false;
        seek_target_position = ℤ.pos 0;
        last_frame_time = clock;
        active_session_id = meta.session_id;
        active_meta = meta;
        feed_count = w.feeds_subscribed sub;
        subscriptions = b.subscriptions ++ sub ∷ [];
        is_live = live;
        paused = false;
      } in
      tell (session_list active)
        (tell (Broadcast.session_selected meta.session_id meta.name) active)

  unfoldable pub switch_to_session : ℕ → Bytes → Bridge F → Bridge F
  switch_to_session clock id b = elim (look_up id b.all_sessions) [
    | none ↦ tell (Broadcast.unknown_session id) b
    | some (prefix, meta) ↦ activate clock prefix meta b
  ]

  unfoldable pub process_seek : ℕ → ℤ → Bridge F → Bridge F
  process_seek clock ts b =
      let sub = seek_subscription b.active_meta ts in
      if is_empty b.active_session_id then b else record b {
        assembler = w.new_assembler;
        trail = if b.is_live then [] else b.trail;
        att_filter = w.filter.fresh;
        decim = w.new_decim;
        last_snapshot = clock;
        ts_latest = ℤ.pos 0;
        ts_emit = ℤ.pos 0;
        feed_count = w.feeds_subscribed sub;
        subscriptions = b.subscriptions ++ sub ∷ [];
      }

  -- 3. of OnTimer
  unfoldable pub take_pause : Bridge F → Bridge F
  take_pause b = elim b.pending_pause [
    | none ↦ b
    | some p ↦ record b { paused = p; pending_pause = none }
  ]

  -- 4. of OnTimer: the refresh of the discovery.
  unfoldable pub merge_fresh : Bridge F → Bridge F
  merge_fresh b =
      let fresh = b.fresh_sessions in
      let changed =
        not (length fresh == length b.all_sessions) || not (same_sessions fresh b.all_sessions) in
      let taken = record b { fresh_sessions = []; fresh_liveness = []; sessions_dirty = false } in
      let refreshed = record taken {
        session_liveness = b.fresh_liveness;
        all_sessions = if changed then fresh else b.all_sessions;
      } in
      if not b.sessions_dirty
      then b
      else if length fresh == 0
      then taken
      else tell (session_list refreshed) refreshed

  unfoldable pub timeline_at : ℤ → Bridge F → Broadcast
  timeline_at current b = Broadcast.timeline (record {
    ts_start_us = if int_lt (ℤ.pos 0) b.ts_session_start then b.ts_session_start else b.ts_first;
    ts_end_us = b.ts_latest;
    ts_current_us = current;
    is_live = b.is_live;
    is_paused = b.paused;
  })

  unfoldable pub current_ts : Bridge F → ℤ
  current_ts b = if int_lt (ℤ.pos 0) b.ts_emit then b.ts_emit else b.ts_latest

  -- `Simplify(2.0)` of the trail, with at most 4096 points.
  unfoldable pub trail_points : Bridge F → List TrailPoint
  trail_points b = elim (simplify w.metric w.epsilon 4096 b.trail) [ none ↦ [] | some pts ↦ pts ]

  unfoldable pub tell_trail : Bridge F → Bridge F
  tell_trail b =
      let pts = trail_points b in if length pts == 0 then b else tell (Broadcast.trail pts) b

  unfoldable pub tell_view : Bridge F → Bridge F
  tell_view b =
      tell_trail
        (if has_minimum_data b.assembler then tell (Broadcast.snapshot b.assembler) b else b)

  -- 5. of OnTimer: the pause at the end of the data.
  unfoldable pub data_consumed : ℕ → Bridge F → Bool
  data_consumed clock b =
      not b.offline_load_done
      && int_lt (ℤ.pos 0) b.ts_latest
      && (not b.is_live || b.paused)
      && ltb (b.last_frame_time + 500) clock

  unfoldable pub auto_pause : ℕ → Bridge F → Bridge F
  auto_pause clock b =
      let at =
        if int_lt (ℤ.pos 0) b.seek_target_position then b.seek_target_position else b.ts_latest in
      let viewed = tell_view (record b {
        offline_load_done = true;
        ts_emit = at;
        seek_target_position = ℤ.pos 0;
        paused = true;
      }) in
      if data_consumed clock b
      then record (tell (timeline_at viewed.ts_emit viewed) viewed) {
        last_timeline = clock;
        last_snapshot = clock;
      }
      else b

  -- 6. and 7. of OnTimer
  unfoldable pub periodic_view : ℕ → Bridge F → Bridge F
  periodic_view clock b =
      if leb (b.last_snapshot + w.snapshot_interval_s * 1000) clock
      then record (tell_view b) { last_snapshot = clock }
      else b

  unfoldable pub periodic_timeline : ℕ → Bridge F → Bridge F
  periodic_timeline clock b =
      if int_lt (ℤ.pos 0) b.ts_latest && leb (b.last_timeline + 1000) clock
      then record (tell (timeline_at (current_ts b) b) b) { last_timeline = clock }
      else b

  unfoldable pub drain_all : Tick → Bridge F → Bridge F
  drain_all t b = drain_wx w.floats w.filter t.now_us t.wx_pops (
      drain_mot w.floats w.filter t.now_us t.mot_pops (
        drain_att w.floats w.filter t.now_us t.att_pops
          (drain_nav w.floats w.filter t.now_us t.nav_pops b)))

  -- From the check for connections on.
  unfoldable pub stream : Tick → Bridge F → Bridge F
  stream t b =
      if t.connections == 0 || is_empty b.active_session_id
      then b
      else periodic_timeline t.clock (periodic_view t.clock (auto_pause t.clock (drain_all t b)))

  unfoldable pub on_timer : Tick → Bridge F → Bridge F
  on_timer t b =
      if not (is_empty b.pending_session_id)
      then switch_to_session t.clock b.pending_session_id (record b { pending_session_id = [] })
      else elim b.pending_seek_ts [
        | some ts ↦ process_seek t.clock ts (record b {
          pending_seek_ts = none;
          seek_target_position = ts;
          offline_load_done = false;
        })
        | none ↦ stream t (merge_fresh (take_pause b))
      ]

-- ===== src/Zoom/Bridge.antt =====
-- The state of class ZoomBridge, kv8zoom/ZoomBridge.{h,cpp}, and the drains of its rings. What a ring
-- gives in a drain are the frames that are popped, each with the clock read for it; what is sent to the
-- clients is a list of the values that are serialised.
use kv8_metrics.Prelude.{ℕ, Bool, not, ◌||◌, Option, List, [], ◌∷◌, ◌++◌, if◌then◌else◌}
use kv8_metrics.Prelude.Bytes.{Bytes}
use kv8_metrics.Prelude.Int.{ℤ, int_lt, int_eq}
use kv8_metrics.Registry.{SessionMeta}
use kv8_metrics.Zoom.Decimation.{
  Controller, Floats, should_emit_nav, should_emit_att, should_emit_mot, should_emit_wx,
}
use kv8_metrics.Zoom.Trail.{TrailPoint, append}
use kv8_metrics.Zoom.Frames.{
  Frame, NavPayload, AttPayload, MotPayload, WxPayload, Quaternion, OutputFrame, update_nav,
  update_att, update_mot, update_wx,
}

pub record SessionInfo : Type 0 where
  pub id : Bytes
  pub name : Bytes
  pub prefix : Bytes
  pub ts_ms : ℕ
  pub feeds : ℕ
  pub is_live : Bool

pub record TimelineInfo : Type 0 where
  pub ts_start_us : ℤ
  pub ts_end_us : ℤ
  pub ts_current_us : ℤ
  pub is_live : Bool
  pub is_paused : Bool

-- The calls of `BroadcastText`.
pub data Broadcast : Type 0 where
  nav att mot wx : OutputFrame → Broadcast
  snapshot : OutputFrame → Broadcast
  trail : List TrailPoint → Broadcast
  timeline : TimelineInfo → Broadcast
  session_list : List SessionInfo → (active : Bytes) → Broadcast
  session_selected : (id name : Bytes) → Broadcast
  meta : (feed_count zoom : ℕ) → Broadcast
  unknown_session : (id : Bytes) → Broadcast

-- The calls on the reader that subscribe to a session.
pub data Subscription : Type 0 where
  from_start : SessionMeta → Subscription
  from_ms : SessionMeta → ℤ → Subscription

-- AttitudeFilter, which is floating-point arithmetic.
pub record FilterOps (F : Type 0) : Type 0 where
  pub fresh : F
  pub add_sample : Frame AttPayload → F → F
  pub get_filtered : ℤ → F → Quaternion

pub record Bridge (F : Type 0) : Type 0 where
  pub decim : Controller
  pub att_filter : F
  pub trail : List TrailPoint
  pub assembler : OutputFrame
  pub all_sessions : List (Bytes × SessionMeta)
  pub session_liveness : List (Bytes × Bool)
  pub fresh_sessions : List (Bytes × SessionMeta)
  pub fresh_liveness : List (Bytes × Bool)
  pub sessions_dirty : Bool
  pub active_meta : SessionMeta
  pub active_session_id : Bytes
  pub pending_session_id : Bytes
  pub feed_count : ℕ
  pub ts_session_start : ℤ
  pub ts_first : ℤ
  pub ts_latest : ℤ
  pub ts_emit : ℤ
  pub is_live : Bool
  pub pending_seek_ts : Option ℤ
  pub paused : Bool
  pub pending_pause : Option Bool
  pub last_frame_time : ℕ
  pub offline_load_done : Bool
  pub seek_target_position : ℤ
  pub last_snapshot : ℕ
  pub last_timeline : ℕ
  pub sent : List Broadcast
  pub subscriptions : List Subscription

module _ {F : Type 0} (fl : Floats) (ops : FilterOps F) where
  unfoldable pub broadcast : Broadcast → Bridge F → Bridge F
  broadcast msg b = record b { sent = b.sent ++ msg ∷ [] }

  -- `m_tsFirst` and `m_tsLatest`
  unfoldable pub note_ts : ℤ → Bridge F → Bridge F
  unfolding int_lt int_eq
  note_ts ts b =
      if int_lt (ℤ.pos 0) ts
      then record b {
        ts_first = if int_eq b.ts_first (ℤ.pos 0) then ts else b.ts_first;
        ts_latest = if int_lt b.ts_latest ts then ts else b.ts_latest;
      }
      else b

  -- `updateAssembler`
  unfoldable pub updates_assembler : ℤ → Bridge F → Bool
  unfolding int_lt
  updates_assembler ts b =
      not b.paused
      || not (int_lt (ℤ.pos 0) b.seek_target_position)
      || not (int_lt b.seek_target_position ts)

  -- A frame is passed on: the answer of the controller, and what is done when it is yes.
  unfoldable pub emit : Controller × Bool → (Bridge F → Bridge F) → Bridge F → Bridge F
  emit answer send b =
      if b.paused
      then b
      else let decided = record b { decim = answer.0 } in if answer.1 then send decided else decided

  unfoldable pub nav_frame : ℕ → Frame NavPayload × ℕ → Bridge F → Bridge F
  nav_frame now_us (f, clock) b =
      let lat = f.payload.lat_deg in
      let lon = f.payload.lon_deg in
      let point : TrailPoint = record {
        ts_us = f.ts_us;
        lat_deg = lat;
        lon_deg = lon;
        alt_m = f.payload.alt_m;
      } in
      let noted = note_ts f.ts_us (record b { last_frame_time = clock }) in
      let tracked = record noted { trail = append point noted.trail } in
      let seen = record tracked {
        assembler = if updates_assembler f.ts_us b then update_nav f b.assembler else b.assembler;
      } in
      emit (should_emit_nav fl lat lon now_us b.decim)
        (λ d. broadcast (Broadcast.nav d.assembler) (record d { ts_emit = f.ts_us })) seen

  unfoldable pub att_frame : ℕ → Frame AttPayload × ℕ → Bridge F → Bridge F
  att_frame now_us (f, clock) b =
      let filter = ops.add_sample f b.att_filter in
      let timed = record b { last_frame_time = clock } in
      let seen =
        if updates_assembler f.ts_us b
        then record timed {
          att_filter = filter;
          assembler = update_att f.ts_us (ops.get_filtered f.ts_us filter) f b.assembler;
        }
        else timed in
      emit (should_emit_att now_us b.decim)
        (λ d.
          broadcast (Broadcast.att d.assembler)
            (record d { ts_emit = if int_lt d.ts_emit f.ts_us then f.ts_us else d.ts_emit }))
        seen

  unfoldable pub mot_frame : ℕ → Frame MotPayload → Bridge F → Bridge F
  mot_frame now_us f b =
      emit (should_emit_mot now_us b.decim) (λ d. broadcast (Broadcast.mot d.assembler) d)
        (record b { assembler = update_mot f b.assembler })

  unfoldable pub wx_frame : ℕ → Frame WxPayload → Bridge F → Bridge F
  wx_frame now_us f b =
      emit (should_emit_wx now_us b.decim) (λ d. broadcast (Broadcast.wx d.assembler) d)
        (record b { assembler = update_wx f b.assembler })

  -- DrainNav, DrainAtt, DrainMot and DrainWx
  unfoldable pub drain_nav : ℕ → List (Frame NavPayload × ℕ) → Bridge F → Bridge F
  drain_nav now_us [] b = b
  drain_nav now_us (pop ∷ pops) b = drain_nav now_us pops (nav_frame now_us pop b)

  unfoldable pub drain_att : ℕ → List (Frame AttPayload × ℕ) → Bridge F → Bridge F
  drain_att now_us [] b = b
  drain_att now_us (pop ∷ pops) b = drain_att now_us pops (att_frame now_us pop b)

  unfoldable pub drain_mot : ℕ → List (Frame MotPayload) → Bridge F → Bridge F
  drain_mot now_us [] b = b
  drain_mot now_us (pop ∷ pops) b = drain_mot now_us pops (mot_frame now_us pop b)

  unfoldable pub drain_wx : ℕ → List (Frame WxPayload) → Bridge F → Bridge F
  drain_wx now_us [] b = b
  drain_wx now_us (pop ∷ pops) b = drain_wx now_us pops (wx_frame now_us pop b)

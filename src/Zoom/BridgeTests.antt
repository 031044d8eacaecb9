-- ===== src/Zoom/BridgeTests.antt =====
-- The bridge and the simplified trail at concrete inputs, and an instance of each property.
use kv8_metrics.Prelude.{
  ℕ, ◌+◌, ◌-◌, ◌≤◌, ◌≡◌, refl, Bool, true, false, none, some, List, [], ◌∷◌, ◌++◌, length, ltb,
  arith,
}
use kv8_metrics.Prelude.Int.{ℤ, int_lt}
use kv8_metrics.Registry.{SessionMeta, is_empty}
use kv8_metrics.Zoom.Decimation.{Controller, interval_us, should_emit_nav, should_emit_mot}
use kv8_metrics.Zoom.Trail.{TrailPoint, Metric, kept_points, subsample, simplify}
use kv8_metrics.Zoom.Farthest.{Ordered}
use kv8_metrics.Zoom.Simplified.{Kept, Close, simplify-Close}
use kv8_metrics.Zoom.Thinned.{length-simplify}
use kv8_metrics.Zoom.Frames.{NavPayload, Triple, Quaternion, MotPayload, WxPayload, OutputFrame}
use kv8_metrics.Zoom.Bridge.{
  Broadcast, Bridge, broadcast, note_ts, emit, nav_frame, mot_frame, drain_nav, drain_att,
  drain_mot, drain_wx,
}
use kv8_metrics.Zoom.Timer.{
  World, Tick, tell, take_pause, merge_fresh, tell_view, timeline_at, current_ts, data_consumed,
  auto_pause, periodic_view, periodic_timeline, drain_all, stream, on_timer,
}
use kv8_metrics.Zoom.Clients.{ClientMessage, on_client_message}
use kv8_metrics.Zoom.Playback.{ticks, ticks-Silent}
use kv8_metrics.Zoom.Silence.{Silent, frames}
use kv8_metrics.Zoom.Seeking.{PausedSeek, seek-PausedSeek}
use mathlib.Core.List.{Memᴰ}
use mathlib.Core.List.Memᴰ.{cases_cons, not-nil}
use kv8_metrics.Prelude.{inl, inr, ◌==◌, if◌then◌else◌}
use kv8_metrics.Prelude.Assoc.{find}
use kv8_metrics.Registry.Ordered.{bytes_less}
use kv8_metrics.Zoom.Catalog.{seek_ms, least_topic, live_edge}
use kv8_metrics.Zoom.Choosing.{Named}
use kv8_metrics.Zoom.Switching.{Switched, select-Switched}
use kv8_metrics.Zoom.Sparse.{length-drain_nav}

-- Positions on a line: a point is as far as its height is from the mean of the ends.
abbrev metric : Metric
metric = record { less = ltb; cross_track_dist = λ a b p. p.alt_m }

ltb-Ordered : Ordered ltb
ltb-Ordered = record {
  IsNumber = λ a. a ≡ a;
  zero_number = refl;
  less_number = λ _. refl;
  not_self = λ a. ground arith;
  not_both = λ {a} {b} h. ground (arith, h);
  not_less_trans = λ a b c _ h k. ground (arith, h, k);
}

abbrev at : ℕ → ℕ → TrailPoint
at time alt = record { ts_us = ℤ.pos time; lat_deg = 0; lon_deg = 0; alt_m = alt }

-- The peak in the middle is kept, and the low point is not.
peak_kept :
    simplify metric 5 4096 (at 1 0 ∷ at 2 3 ∷ at 3 9 ∷ at 4 4 ∷ at 5 0 ∷ [])
    ≡ some (at 1 0 ∷ at 3 9 ∷ at 5 0 ∷ [])
unfolding simplify
peak_kept = refl

abbrev zigzag : List TrailPoint
zigzag =
    at 1 9
    ∷ at 2 9
    ∷ at 3 9
    ∷ at 4 9
    ∷ at 5 9
    ∷ at 6 9
    ∷ at 7 9
    ∷ at 8 9
    ∷ at 9 9
    ∷ at 10 9
    ∷ at 11 9
    ∷ at 12 9
    ∷ at 13 9
    ∷ at 14 9
    ∷ at 15 9
    ∷ []

-- Of fifteen points with a limit of four, five are left.
one_too_many : simplify metric 5 4 zigzag ≡ some (at 1 9 ∷ at 5 9 ∷ at 9 9 ∷ at 13 9 ∷ at 15 9 ∷ [])
unfolding simplify
one_too_many = refl

abbrev zigzag_rest : List TrailPoint
zigzag_rest = at 3 9 ∷ at 4 1 ∷ at 5 9 ∷ []

simplify-Close_example :
    let pts = at 1 0 ∷ at 2 3 ∷ zigzag_rest in
    let n = length pts in
    (keep : List Bool) × (simplify metric 5 4096 pts ≡ some (subsample 4096 (kept_points keep pts)))
    × (length keep ≡ n)
    × Kept keep 0
    × Kept keep (n - 1)
    × Close metric 5 pts keep 0 (n - 1)
simplify-Close_example = simplify-Close metric 5 4096 (at 1 0) (at 2 3) zigzag_rest ltb-Ordered refl

length-simplify_example :
    (out : List TrailPoint) × (simplify metric 5 4 zigzag ≡ some out) × (length out ≤ 4 + 1)
length-simplify_example = length-simplify metric 5 4 zigzag ltb-Ordered refl (omega arith)

abbrev no_turn : Quaternion
no_turn = record { qw = 1; qx = 0; qy = 0; qz = 0 }

abbrev zero3 : Triple
zero3 = record { x = 0; y = 0; z = 0 }

abbrev nav_at : ℕ → NavPayload
nav_at lat = record {
  lat_deg = lat;
  lon_deg = 0;
  alt_m = 0;
  vx_ms = 0;
  vy_ms = 0;
  vz_ms = 0;
  gps_fix = 3;
  sats = 8;
  hdop = 0;
  baro_alt_m = 0;
}

abbrev motors : MotPayload
motors = record { battery_v = 12; m1 = 0; m2 = 0; m3 = 0; m4 = 0 }

abbrev calm : WxPayload
calm = record {
  temperature_c = 0;
  humidity_pct = 0;
  pressure_hpa = 0;
  wind_speed_ms = 0;
  wind_dir_deg = 0;
  rain_mm_h = 0;
  uv_index = 0;
}

abbrev no_data : OutputFrame
no_data = record {
  nav = nav_at 0;
  nav_ts_us = ℤ.pos 0;
  has_nav = false;
  att_quat = no_turn;
  att_rates = zero3;
  att_accel = zero3;
  att_ts_us = ℤ.pos 0;
  has_att = false;
  mot = motors;
  mot_ts_us = ℤ.pos 0;
  has_mot = false;
  wx = calm;
  wx_ts_us = ℤ.pos 0;
  has_wx = false;
}

abbrev controller : Controller
controller = record {
  zoom_rates = record { zoom_max = ℤ.pos 99; rate_hz = ℤ.pos 10 } ∷ [];
  min_displacement = 0;
  zoom = 15;
  nav = record { last_emit = 0; last_lat = 0; last_lon = 0; has_ref = false };
  att = 0;
  mot = 0;
  wx = 0;
}

-- The filter is the number of its samples.
abbrev world : World ℕ
world = record {
  floats = record { less = ltb; haversine_dist = λ lat1 lon1 lat2 lon2. lat2 - lat1 };
  metric = metric;
  epsilon = 2;
  filter = record { fresh = 0; add_sample = λ f n. n + 1; get_filtered = λ ts n. no_turn };
  new_decim = controller;
  new_assembler = no_data;
  snapshot_interval_s = 5;
  sort = λ infos. infos;
  latest_ms = λ topic. ℤ.pos 0;
  feeds_subscribed = λ sub. 4;
}

abbrev session : SessionMeta
session = record {
  session_id = 83 ∷ [];
  session_prefix = 80 ∷ [];
  name = [];
  log_topic = [];
  control_topic = [];
  hash_to_group = [];
  hash_to_counters = [];
  data_topics = [];
  topic_to_group_name = [];
  topic_to_group_hash = [];
  topic_to_frequency = [];
  topic_to_timer_value = [];
  topic_to_time_hi = [];
  topic_to_time_lo = [];
  topic_to_counter = [];
  log_sites = [];
}

abbrev playing : Bridge ℕ
playing = record {
  decim = controller;
  att_filter = 0;
  trail = [];
  assembler = no_data;
  all_sessions = [];
  session_liveness = [];
  fresh_sessions = [];
  fresh_liveness = [];
  sessions_dirty = false;
  active_meta = session;
  active_session_id = 83 ∷ [];
  pending_session_id = [];
  feed_count = 4;
  ts_session_start = ℤ.pos 0;
  ts_first = ℤ.pos 0;
  ts_latest = ℤ.pos 0;
  ts_emit = ℤ.pos 0;
  is_live = true;
  pending_seek_ts = none;
  paused = false;
  pending_pause = none;
  last_frame_time = 0;
  offline_load_done = false;
  seek_target_position = ℤ.pos 0;
  last_snapshot = 0;
  last_timeline = 0;
  sent = [];
  subscriptions = [];
}

abbrev tick : Tick
tick = record {
  connections = 1;
  now_us = 1000000;
  clock = 1000;
  nav_pops =
      (record { ts_us = ℤ.pos 500; payload = nav_at 7 }, 990)
      ∷ (record { ts_us = ℤ.pos 600; payload = nav_at 8 }, 991)
      ∷ [];
  att_pops = [];
  mot_pops = record { ts_us = ℤ.pos 500; payload = motors } ∷ [];
  wx_pops = [];
}

-- A frame of each of two feeds in the tick, and none while it is paused, or after a message that pauses it.
frames_of_tick : frames (on_timer world tick playing).sent ≡ 2
unfolding on_timer stream drain_all drain_nav drain_att drain_mot drain_wx nav_frame mot_frame emit
    take_pause merge_fresh auto_pause periodic_view periodic_timeline tell timeline_at current_ts
    tell_view data_consumed broadcast is_empty int_lt note_ts should_emit_nav should_emit_mot
frames_of_tick = refl

frames_of_paused_tick :
    frames (on_timer world tick (on_client_message ClientMessage.pause playing)).sent ≡ 0
unfolding on_timer stream drain_all drain_nav drain_att drain_mot drain_wx nav_frame mot_frame emit
    take_pause merge_fresh auto_pause periodic_view periodic_timeline tell timeline_at current_ts
    tell_view data_consumed broadcast on_client_message is_empty int_lt note_ts
frames_of_paused_tick = refl

abbrev paused : Bridge ℕ
paused = record playing { paused = true }

ticks-Silent_example : Silent paused (ticks world (tick ∷ tick ∷ []) paused)
ticks-Silent_example =
    ticks-Silent world (tick ∷ tick ∷ [])
      (record { is_paused = refl; no_switch = refl; no_seek = refl; no_toggle = refl })

seek-PausedSeek_example : PausedSeek world (ℤ.pos 5000000) paused (
    ticks world (tick ∷ tick ∷ []) (
      on_client_message
        (ClientMessage.seek (some (ℤ.pos 5000000)))
        (on_client_message (ClientMessage.camera (some (ℤ.pos 19))) paused)))
unfolding is_empty
seek-PausedSeek_example =
    seek-PausedSeek world tick (tick ∷ []) (ℤ.pos 19) (ℤ.pos 5000000) paused refl refl refl refl

length-drain_nav_example :
    (pushed : List Broadcast) × ((drain_nav world.floats world.filter 1000000 tick.nav_pops
        playing).sent
      ≡ playing.sent ++ pushed)
    × (frames pushed ≤ 1)
unfolding interval_us
length-drain_nav_example =
    length-drain_nav world.floats world.filter 1000000 tick.nav_pops playing (omega arith)

abbrev knowing : Bridge ℕ
knowing = record playing {
  all_sessions = (80 ∷ [], session) ∷ [];
  session_liveness = (80 ∷ [], true) ∷ [];
  pending_seek_ts = some (ℤ.pos 9);
}

-- By the id of the session, which is not its prefix.
select-Switched_example : Switched world (80 ∷ []) session knowing (
    on_timer world tick (on_client_message (ClientMessage.select_session (some (83 ∷ []))) knowing))
unfolding find
select-Switched_example = select-Switched world tick knowing 83 [] (80 ∷ []) session (
    Named.by_id refl (Memᴰ.head refl) refl
      (λ p m same. elim (cases_cons m) [ inl e ↦ e | inr later ↦ absurd (not-nil later) ]))

-- A live session with two topics is read from the record of the least one.
reads_least :
    seek_ms
      (λ topic. if length topic == 1 then ℤ.pos 90000 else ℤ.pos 0)
      true
      ((9 ∷ 9 ∷ []) ∷ (9 ∷ []) ∷ [])
    ≡ 60000
unfolding seek_ms least_topic bytes_less live_edge
reads_least = refl

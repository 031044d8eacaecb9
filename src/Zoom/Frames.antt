-- ===== src/Zoom/Frames.antt =====
-- The frames of kv8zoom/Frames.h and class FrameAssembler of kv8zoom/FrameAssembler.{h,cpp}. Doubles
-- and floats are bit patterns.
use kv8_metrics.Prelude.{ℕ, Bool, true, ◌&&◌}
use kv8_metrics.Prelude.Int.{ℤ}

pub record NavPayload : Type 0 where
  pub lat_deg : ℕ
  pub lon_deg : ℕ
  pub alt_m : ℕ
  pub vx_ms : ℕ
  pub vy_ms : ℕ
  pub vz_ms : ℕ
  pub gps_fix : ℕ
  pub sats : ℕ
  pub hdop : ℕ
  pub baro_alt_m : ℕ

pub record Triple : Type 0 where
  pub x : ℕ
  pub y : ℕ
  pub z : ℕ

pub record Quaternion : Type 0 where
  pub qw : ℕ
  pub qx : ℕ
  pub qy : ℕ
  pub qz : ℕ

-- AttPayload: the attitude, the rates rx to rz and the accelerations ax to az.
pub record AttPayload : Type 0 where
  pub quat : Quaternion
  pub rates : Triple
  pub accel : Triple

pub record MotPayload : Type 0 where
  pub battery_v : ℕ
  pub m1 : ℕ
  pub m2 : ℕ
  pub m3 : ℕ
  pub m4 : ℕ

pub record WxPayload : Type 0 where
  pub temperature_c : ℕ
  pub humidity_pct : ℕ
  pub pressure_hpa : ℕ
  pub wind_speed_ms : ℕ
  pub wind_dir_deg : ℕ
  pub rain_mm_h : ℕ
  pub uv_index : ℕ

-- NavFrame, AttFrame, MotFrame and WxFrame
pub record Frame (P : Type 0) : Type 0 where
  pub ts_us : ℤ
  pub payload : P

pub record OutputFrame : Type 0 where
  pub nav : NavPayload
  pub nav_ts_us : ℤ
  pub has_nav : Bool
  pub att_quat : Quaternion
  pub att_rates : Triple
  pub att_accel : Triple
  pub att_ts_us : ℤ
  pub has_att : Bool
  pub mot : MotPayload
  pub mot_ts_us : ℤ
  pub has_mot : Bool
  pub wx : WxPayload
  pub wx_ts_us : ℤ
  pub has_wx : Bool

unfoldable pub update_nav : Frame NavPayload → OutputFrame → OutputFrame
update_nav f cur = record cur { nav = f.payload; nav_ts_us = f.ts_us; has_nav = true }

unfoldable pub update_att : ℤ → Quaternion → Frame AttPayload → OutputFrame → OutputFrame
update_att ts_us q raw cur = record cur {
  att_quat = q;
  att_rates = raw.payload.rates;
  att_accel = raw.payload.accel;
  att_ts_us = ts_us;
  has_att = true;
}

unfoldable pub update_mot : Frame MotPayload → OutputFrame → OutputFrame
update_mot f cur = record cur { mot = f.payload; mot_ts_us = f.ts_us; has_mot = true }

unfoldable pub update_wx : Frame WxPayload → OutputFrame → OutputFrame
update_wx f cur = record cur { wx = f.payload; wx_ts_us = f.ts_us; has_wx = true }

unfoldable pub has_minimum_data : OutputFrame → Bool
has_minimum_data cur = cur.has_nav && cur.has_att

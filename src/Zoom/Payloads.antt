-- ===== src/Zoom/Payloads.antt =====
-- The packed payloads of kv8zoom/Frames.h, as memcpy reads them.
use kv8_metrics.Prelude.Bytes.{Bytes, field, skip}
use kv8_metrics.Zoom.Frames.{NavPayload, Triple, Quaternion, AttPayload, MotPayload, WxPayload}

unfoldable pub read_nav : Bytes → NavPayload
read_nav b0 =
    let b1 = skip 8 b0 in
    let b2 = skip 8 b1 in
    let b3 = skip 8 b2 in
    let b4 = skip 8 b3 in
    let b5 = skip 8 b4 in
    let b6 = skip 8 b5 in
    let b7 = skip 1 b6 in
    let b8 = skip 1 b7 in
    let b9 = skip 4 b8 in
    record {
      lat_deg = field 8 b0;
      lon_deg = field 8 b1;
      alt_m = field 8 b2;
      vx_ms = field 8 b3;
      vy_ms = field 8 b4;
      vz_ms = field 8 b5;
      gps_fix = field 1 b6;
      sats = field 1 b7;
      hdop = field 4 b8;
      baro_alt_m = field 4 b9;
    }

unfoldable pub read_triple : Bytes → Triple
read_triple b0 =
    let b1 = skip 8 b0 in
    let b2 = skip 8 b1 in record { x = field 8 b0; y = field 8 b1; z = field 8 b2 }

unfoldable pub read_quaternion : Bytes → Quaternion
read_quaternion b0 =
    let b1 = skip 8 b0 in
    let b2 = skip 8 b1 in
    let b3 = skip 8 b2 in
    record { qw = field 8 b0; qx = field 8 b1; qy = field 8 b2; qz = field 8 b3 }

unfoldable pub read_att : Bytes → AttPayload
read_att b = record {
  quat = read_quaternion b;
  rates = read_triple (skip 32 b);
  accel = read_triple (skip 24 (skip 32 b));
}

unfoldable pub read_mot : Bytes → MotPayload
read_mot b0 =
    let b1 = skip 4 b0 in
    let b2 = skip 4 b1 in
    let b3 = skip 4 b2 in
    let b4 = skip 4 b3 in
    record {
      battery_v = field 4 b0;
      m1 = field 4 b1;
      m2 = field 4 b2;
      m3 = field 4 b3;
      m4 = field 4 b4;
    }

unfoldable pub read_wx : Bytes → WxPayload
read_wx b0 =
    let b1 = skip 4 b0 in
    let b2 = skip 4 b1 in
    let b3 = skip 4 b2 in
    let b4 = skip 4 b3 in
    let b5 = skip 4 b4 in
    let b6 = skip 4 b5 in
    record {
      temperature_c = field 4 b0;
      humidity_pct = field 4 b1;
      pressure_hpa = field 4 b2;
      wind_speed_ms = field 4 b3;
      wind_dir_deg = field 4 b4;
      rain_mm_h = field 4 b5;
      uv_index = field 4 b6;
    }

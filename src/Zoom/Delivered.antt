-- ===== src/Zoom/Delivered.antt =====
-- From the bytes of a message to the rings of kv8zoom/KafkaReader.cpp.
use kv8_metrics.Prelude.{◌^◌, ◌<◌, ◌≡◌, ◌++◌}
use kv8_metrics.Prelude.Bytes.{Bytes, le}
use kv8_metrics.Prelude.Assoc.{bytes_eq}
use kv8_metrics.Ring.Queue
use kv8_metrics.Ring.Fixed.{Ring, push, capacity}
use kv8_metrics.Ring.Fixed.Refine.{contents}
use kv8_metrics.Zoom.Frames.{NavPayload, Frame}
use kv8_metrics.Zoom.Reader.{Reader, ring_size, no_nav}

-- The layout of the navigation payload, pack(1), 58 bytes.
abbrev pub write_nav : NavPayload → Bytes → Bytes
write_nav p rest =
    le 8 p.lat_deg
    ++ (le 8 p.lon_deg
        ++ (le 8 p.alt_m
            ++ (le 8 p.vx_ms
                ++ (le 8 p.vy_ms
                    ++ (le 8 p.vz_ms
                        ++ (le 1 p.gps_fix
                            ++ (le 1 p.sats ++ (le 4 p.hdop ++ (le 4 p.baro_alt_m ++ rest)))))))))

pub record NavFits (p : NavPayload) : Type 0 where
  pub lat_fits : p.lat_deg < 2 ^ 64
  pub lon_fits : p.lon_deg < 2 ^ 64
  pub alt_fits : p.alt_m < 2 ^ 64
  pub vx_fits : p.vx_ms < 2 ^ 64
  pub vy_fits : p.vy_ms < 2 ^ 64
  pub vz_fits : p.vz_ms < 2 ^ 64
  pub fix_fits : p.gps_fix < 2 ^ 8
  pub sats_fits : p.sats < 2 ^ 8
  pub hdop_fits : p.hdop < 2 ^ 32
  pub baro_fits : p.baro_alt_m < 2 ^ 32

-- What a frame of the navigation does to the reader.
pub record Received (f : Frame NavPayload) (r r' : Reader) : Type 0 where
  pub nav_queued :
      contents no_nav ring_size r'.nav_ring
      ≡ (Queue.push (capacity ring_size) (contents no_nav ring_size r.nav_ring) f).0
  pub same_att : r'.att_ring ≡ r.att_ring
  pub same_mot : r'.mot_ring ≡ r.mot_ring
  pub same_wx : r'.wx_ring ≡ r.wx_ring
  pub same_feeds : r'.topic_to_feed ≡ r.topic_to_feed

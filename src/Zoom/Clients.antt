-- ===== src/Zoom/Clients.antt =====
-- What class ZoomBridge does for its clients and its discovery, kv8zoom/ZoomBridge.cpp.
use kv8_metrics.Prelude.{Bool, true, false, Option, none, some, List, length, ◌==◌, if◌then◌else◌}
use kv8_metrics.Prelude.Bytes.{Bytes}
use kv8_metrics.Prelude.Assoc.{bytes_eq}
use kv8_metrics.Prelude.Int.{ℤ, int_lt}
use kv8_metrics.Registry.{SessionMeta, is_empty}
use kv8_metrics.Zoom.Decimation.{set_zoom}
use kv8_metrics.Zoom.Frames.{has_minimum_data}
use kv8_metrics.Zoom.Bridge.{Broadcast, Bridge}
use kv8_metrics.Zoom.Timer.{World, session_list, tell, timeline_at, current_ts, tell_trail}

module _ {F : Type 0} (w : World F) where
  unfoldable pub on_client_open : Bridge F → Bridge F
  on_client_open b =
      let listed = tell w (session_list w b) b in
      let described = tell w (Broadcast.meta b.feed_count b.decim.zoom) listed in
      let viewed =
        if has_minimum_data b.assembler
        then tell_trail w (tell w (Broadcast.snapshot b.assembler) described)
        else described in
      if is_empty b.active_session_id
      then listed
      else if int_lt (ℤ.pos 0) b.ts_latest
      then tell w (timeline_at w (current_ts w b) b) viewed
      else viewed

-- A message of a client as it is parsed; a value that it lacks is none.
pub data ClientMessage : Type 0 where
  malformed : ClientMessage
  other_type : ClientMessage
  camera : (zoom : Option ℤ) → ClientMessage
  select_session : (id : Option Bytes) → ClientMessage
  seek : (ts_us : Option ℤ) → ClientMessage
  pause play : ClientMessage

unfoldable pub on_client_message : {F : Type 0} → ClientMessage → Bridge F → Bridge F
on_client_message ClientMessage.malformed b = b
on_client_message ClientMessage.other_type b = b
on_client_message (ClientMessage.camera none) b = record b {
  decim = set_zoom (ℤ.pos b.decim.zoom) b.decim;
}
on_client_message (ClientMessage.camera (some zoom)) b = record b { decim = set_zoom zoom b.decim }
on_client_message (ClientMessage.select_session none) b = b
on_client_message (ClientMessage.select_session (some id)) b =
    if is_empty id then b else record b { pending_session_id = id }
on_client_message (ClientMessage.seek none) b = record b { pending_seek_ts = some (ℤ.pos 0) }
on_client_message (ClientMessage.seek (some ts)) b = record b { pending_seek_ts = some ts }
on_client_message ClientMessage.pause b = record b { pending_pause = some true }
on_client_message ClientMessage.play b = record b { pending_pause = some false }

-- What the thread of the discovery found.
unfoldable pub on_discovery :
    {F : Type 0} → List (Bytes × SessionMeta) → List (Bytes × Bool) → Bridge F → Bridge F
on_discovery sessions liveness b =
    if length sessions == 0
    then b
    else record b { fresh_sessions = sessions; fresh_liveness = liveness; sessions_dirty = true }

-- ===== src/Capabilities/Stream/Handlers.antt =====
-- node/p2pcd/src/capabilities/stream.rs: the handlers of the four messages, the streams that end by time or
-- with their peer.

use howm.Base.{
  ℕ, ◌+◌, ◌%◌, ◌^◌, Bool, true, false, not, Option, none, some, List, [], Bytes, Text, lookup,
  insert, remove, length, leb, ltb, nat_eq, bytes_ord, nat_ord, pair_ord, unwrap_or, if◌then◌else◌,
  Result, ok,
}
use howm.Protocol.Manifest.{PeerId}
use howm.Protocol.Cbor.Values.{Value}
use howm.Protocol.Cbor.Scopes.{CborError}
use howm.Protocol.Cbor.Codec.{Codec}
use howm.Capabilities.Payload.{
  CapabilityContext, cbor_encode_map, cbor_get_int, cbor_get_text, cbor_get_bytes, decode_payload,
  with_map,
}
use howm.Capabilities.Stream.{
  StreamState, StreamDataSink, StreamHandler, from_u64, receiving, new_stream, on_stream_requested,
  on_stream_opened, on_stream_data, on_stream_closed, call_sink, stream_send_msg, stream_open,
  stream_data, stream_close, stream_control, max_concurrent, max_frame_bytes, timeout_of,
  stream_id_key, status_key, codec_key, bitrate_kbps_key, label_key, data_key, sequence_key,
  timestamp_ms_key, reason_key, control_type_key, value_key, mode_key,
}
use howm.Capabilities.Stream.Messages.{request, accepted, rejected, stats_pairs, send_open_response}

-- The types of CONTROL messages that are acted on.
abbrev pub pause : ℕ
pause = 0

abbrev pub resume : ℕ
resume = 1

abbrev pub bitrate_change : ℕ
bitrate_change = 2

abbrev pub heartbeat : ℕ
heartbeat = 3

abbrev pub stats_req : ℕ
stats_req = 4

-- What an OPEN request says.
pub record OpenRequest : Type 0 where
  pub id : ℕ
  pub codec : Text
  pub bitrate : ℕ
  pub label : Option Text
  pub mode_val : ℕ

-- Without a callback, a stream is accepted.
abbrev pub accepts_stream : OpenRequest → PeerId → Option StreamDataSink → Bool
accepts_stream r p none = true
accepts_stream r p (some s) = s.accepts s.calls r.id p r.codec r.label (r.mode_val % 2 ^ 8)

abbrev pub accepted_stream : ℕ → CapabilityContext → OpenRequest → StreamState
accepted_stream now ctx r =
    new_stream now r.id ctx.peer_id r.codec (from_u64 r.mode_val) r.bitrate r.label receiving
      (timeout_of ctx.params)

-- A frame that comes in.
abbrev pub count_received : ℕ → ℕ → ℕ → StreamState → StreamState
count_received now seq n st = record st {
  last_received_seq = seq;
  bytes_transferred = (st.bytes_transferred + n) % 2 ^ 64;
  frames_transferred = (st.frames_transferred + 1) % 2 ^ 64;
  last_activity = now;
}

abbrev pub take_frame :
    ℕ
    → CapabilityContext
    → ℕ
    → Bytes
    → ℕ
    → Option ℕ
    → StreamHandler
    → Option StreamState
    → StreamHandler
take_frame now ctx id contents seq timestamp h none = h
take_frame now ctx id contents seq timestamp h (some st) =
    call_sink (on_stream_data id ctx.peer_id contents seq timestamp) (record h {
      streams = insert (ctx.peer_id, id) (count_received now seq (length contents) st) h.streams;
    })

unfoldable pub receive_frame :
    ℕ → CapabilityContext → ℕ → Bytes → ℕ → Option ℕ → StreamHandler → StreamHandler
unfolding call_sink
receive_frame now ctx id contents seq timestamp h =
    if ltb (max_frame_bytes ctx.params) (length contents)
    then h
    else take_frame now ctx id contents seq timestamp h (lookup (ctx.peer_id, id) h.streams)

abbrev pub take_close :
    CapabilityContext → ℕ → ℕ → StreamHandler → Option StreamState → StreamHandler
take_close ctx id reason h none = h
take_close ctx id reason h (some st) =
    call_sink (on_stream_closed id ctx.peer_id reason)
      (record h { streams = remove (ctx.peer_id, id) h.streams })

-- A change of a stream, where there is one.
abbrev pub update_stream :
    PeerId → ℕ → (StreamState → StreamState) → StreamHandler → Option StreamState → StreamHandler
update_stream p id f h none = h
update_stream p id f h (some st) = record h { streams = insert (p, id) (f st) h.streams }

abbrev pub set_paused : ℕ → Bool → StreamState → StreamState
set_paused now b st = record st { paused = b; last_activity = now }

abbrev pub set_bitrate : ℕ → ℕ → StreamState → StreamState
set_bitrate now kbps st = record st { bitrate_kbps = kbps; last_activity = now }

abbrev pub set_active : ℕ → StreamState → StreamState
set_active now st = record st { last_activity = now }

module _ (wire : Codec) where
  unfoldable pub handle_request :
      ℕ → CapabilityContext → OpenRequest → StreamHandler → StreamHandler
  unfolding call_sink send_open_response
  handle_request now ctx r h =
      if leb (max_concurrent ctx.params) (length h.streams)
      then send_open_response wire ctx.peer_id r.id rejected h
      else let asked =
          call_sink (on_stream_requested r.id ctx.peer_id r.codec r.label (r.mode_val % 2 ^ 8)) h in
        if not (accepts_stream r ctx.peer_id h.data_sink)
        then send_open_response wire ctx.peer_id r.id rejected asked
        else call_sink (on_stream_opened r.id ctx.peer_id r.codec r.label) (
            send_open_response wire ctx.peer_id r.id accepted (record asked {
              streams = insert (ctx.peer_id, r.id) (accepted_stream now ctx r) asked.streams;
            }))

  unfoldable pub open_status :
      ℕ → CapabilityContext → ℕ → OpenRequest → StreamHandler → StreamHandler
  unfolding handle_request
  open_status now ctx status r h =
      if nat_eq status request
      then handle_request now ctx r h
      else if nat_eq status rejected
      then record h { streams = remove (ctx.peer_id, r.id) h.streams }
      else h

  unfoldable pub open_message :
      ℕ → CapabilityContext → StreamHandler → List (Value × Value) → StreamHandler
  unfolding open_status
  open_message now ctx h m =
      open_status now ctx (unwrap_or (cbor_get_int m status_key) request)
        (record {
          id = unwrap_or (cbor_get_int m stream_id_key) 0;
          codec = unwrap_or (cbor_get_text m codec_key) [];
          bitrate = unwrap_or (cbor_get_int m bitrate_kbps_key) 0;
          label = cbor_get_text m label_key;
          mode_val = unwrap_or (cbor_get_int m mode_key) 0;
        })
        h

  unfoldable pub data_message :
      ℕ → CapabilityContext → StreamHandler → List (Value × Value) → StreamHandler
  unfolding receive_frame
  data_message now ctx h m =
      receive_frame now ctx (unwrap_or (cbor_get_int m stream_id_key) 0)
        (unwrap_or (cbor_get_bytes m data_key) []) (unwrap_or (cbor_get_int m sequence_key) 0)
        (cbor_get_int m timestamp_ms_key) h

  unfoldable pub close_message :
      CapabilityContext → StreamHandler → List (Value × Value) → StreamHandler
  unfolding call_sink
  close_message ctx h m =
      let id = unwrap_or (cbor_get_int m stream_id_key) 0 in
      take_close ctx id (unwrap_or (cbor_get_int m reason_key) 0) h
        (lookup (ctx.peer_id, id) h.streams)

  abbrev pub send_stats : CapabilityContext → ℕ → StreamHandler → Option StreamState → StreamHandler
  send_stats ctx id h none = h
  send_stats ctx id h (some st) =
      stream_send_msg ctx.peer_id stream_control (cbor_encode_map wire (stats_pairs id st)) h

  unfoldable pub control : ℕ → CapabilityContext → ℕ → ℕ → ℕ → StreamHandler → StreamHandler
  unfolding stream_send_msg
  control now ctx id type value h =
      let held = lookup (ctx.peer_id, id) h.streams in
      if nat_eq type pause
      then update_stream ctx.peer_id id (set_paused now true) h held
      else if nat_eq type resume
      then update_stream ctx.peer_id id (set_paused now false) h held
      else if nat_eq type bitrate_change
      then update_stream ctx.peer_id id (set_bitrate now value) h held
      else if nat_eq type heartbeat
      then update_stream ctx.peer_id id (set_active now) h held
      else if nat_eq type stats_req
      then send_stats ctx id h held
      else h

  unfoldable pub control_message :
      ℕ → CapabilityContext → StreamHandler → List (Value × Value) → StreamHandler
  unfolding control
  control_message now ctx h m =
      control now ctx (unwrap_or (cbor_get_int m stream_id_key) 0)
        (unwrap_or (cbor_get_int m control_type_key) 0) (unwrap_or (cbor_get_int m value_key) 0) h

  -- `on_message`: other numbers are not handled.
  unfoldable pub stream_on_message :
      ℕ
      → ℕ
      → CapabilityContext
      → Bytes
      → StreamHandler
      → StreamHandler × Result CborError (Unit {0})
  unfolding decode_payload open_message data_message close_message control_message
  stream_on_message now msg_type ctx payload h =
      let read = decode_payload wire payload in
      if nat_eq msg_type stream_open
      then with_map read h (open_message now ctx h)
      else if nat_eq msg_type stream_data
      then with_map read h (data_message now ctx h)
      else if nat_eq msg_type stream_close
      then with_map read h (close_message ctx h)
      else if nat_eq msg_type stream_control
      then with_map read h (control_message now ctx h)
      else (h, ok tt)

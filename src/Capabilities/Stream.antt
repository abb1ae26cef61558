-- ===== src/Capabilities/Stream.antt =====
-- node/p2pcd/src/capabilities/stream.rs: the streams that a node sends and receives. Each handler is one
-- step; the clock, in seconds, is an argument.
pub mod Messages
pub mod Handlers
pub mod Cleanup
pub mod Handshake
pub mod Transfer
pub mod Endings
use mathlib.Core.Option
use howm.Base.{
  ℕ, ◌+◌, ◌-◌, ◌%◌, ◌^◌, Bool, true, false, Option, none, some, List, [], ◌∷◌, ◌++◌, Bytes, Text,
  bytes, bytes_ord, nat_ord, pair_ord, ◌==◌, Map, lookup, insert, remove, length, ltb, nat_eq,
  unwrap_or, if◌then◌else◌, Result, ok, err,
}
use howm.Protocol.Manifest.{PeerId}
use howm.Protocol.Scope.{ScopeParams, get_ext_uint}
use howm.Capabilities.Payload.{make_capability_msg}
use howm.Capabilities.Senders.{Senders, send_msg}

-- The numbers of the messages, and of the keys of their payloads.
abbrev pub stream_open : ℕ
stream_open = 27

abbrev pub stream_data : ℕ
stream_data = 28

abbrev pub stream_close : ℕ
stream_close = 29

abbrev pub stream_control : ℕ
stream_control = 30

abbrev pub stream_id_key : ℕ
stream_id_key = 1

abbrev pub status_key : ℕ
status_key = 2

abbrev pub codec_key : ℕ
codec_key = 3

abbrev pub bitrate_kbps_key : ℕ
bitrate_kbps_key = 4

abbrev pub label_key : ℕ
label_key = 5

abbrev pub data_key : ℕ
data_key = 7

abbrev pub sequence_key : ℕ
sequence_key = 8

abbrev pub timestamp_ms_key : ℕ
timestamp_ms_key = 9

abbrev pub reason_key : ℕ
reason_key = 10

abbrev pub control_type_key : ℕ
control_type_key = 11

abbrev pub value_key : ℕ
value_key = 12

abbrev pub mode_key : ℕ
mode_key = 13

abbrev pub frames_sent : Text
frames_sent = bytes "frames_sent"

abbrev pub bytes_sent : Text
bytes_sent = bytes "bytes_sent"

pub data StreamMode : Type 0 where
  framed raw : StreamMode

abbrev pub from_u64 : ℕ → StreamMode
from_u64 v = if nat_eq v 1 then raw else framed

abbrev pub to_u64 : StreamMode → ℕ
to_u64 framed = 0
to_u64 raw = 1

pub data StreamDirection : Type 0 where
  sending receiving : StreamDirection

pub record StreamState : Type 0 where
  pub stream_id : ℕ
  pub peer_id : PeerId
  pub codec : Text
  pub mode : StreamMode
  pub bitrate_kbps : ℕ
  pub label : Option Text
  pub direction : StreamDirection
  pub paused : Bool
  pub next_sequence : ℕ
  pub last_received_seq : ℕ
  pub created_at : ℕ
  pub last_activity : ℕ
  pub bytes_transferred : ℕ
  pub frames_transferred : ℕ
  pub timeout_secs : ℕ

unfoldable pub is_idle : ℕ → StreamState → Bool
is_idle now st = ltb st.timeout_secs (now - st.last_activity)

-- The calls of the application's callback.
pub data SinkCall : Type 0 where
  on_stream_requested : ℕ → PeerId → Text → Option Text → ℕ → SinkCall
  on_stream_opened : ℕ → PeerId → Text → Option Text → SinkCall
  on_stream_data : ℕ → PeerId → Bytes → ℕ → Option ℕ → SinkCall
  on_stream_closed : ℕ → PeerId → ℕ → SinkCall

-- The callback, which accepts a stream or not by the calls that came before, and its calls so far.
pub record StreamDataSink : Type 0 where
  pub accepts : List SinkCall → ℕ → PeerId → Text → Option Text → ℕ → Bool
  pub calls : List SinkCall

pub record StreamHandler : Type 0 where
  pub streams : Map (PeerId × ℕ) StreamState
  pub peer_senders : Senders
  pub data_sink : Option StreamDataSink

abbrev pub new_streams : StreamHandler
new_streams = record { streams = []; peer_senders = []; data_sink = none }

unfoldable pub add_peer_sender : PeerId → StreamHandler → StreamHandler
add_peer_sender p h = record h { peer_senders = insert p [] h.peer_senders }

unfoldable pub remove_peer_sender : PeerId → StreamHandler → StreamHandler
remove_peer_sender p h = record h { peer_senders = remove p h.peer_senders }

unfoldable pub set_data_sink :
    (List SinkCall → ℕ → PeerId → Text → Option Text → ℕ → Bool) → StreamHandler → StreamHandler
set_data_sink accepts h = record h { data_sink = some (record { accepts = accepts; calls = [] }) }

abbrev pub stream_count : StreamHandler → ℕ
stream_count h = length h.streams

abbrev pub log_call : SinkCall → StreamDataSink → StreamDataSink
log_call c s = record s { calls = s.calls ++ c ∷ [] }

-- A call of the callback, if there is one.
unfoldable pub call_sink : SinkCall → StreamHandler → StreamHandler
call_sink c h = record h { data_sink = Option.map (log_call c) h.data_sink }

unfoldable pub stream_send_msg : PeerId → ℕ → Bytes → StreamHandler → StreamHandler
stream_send_msg p msg_type payload h = record h {
  peer_senders = send_msg p (make_capability_msg msg_type payload) h.peer_senders;
}

abbrev pub max_concurrent : ScopeParams → ℕ
max_concurrent params = unwrap_or (get_ext_uint params 24) 8

abbrev pub max_frame_bytes : ScopeParams → ℕ
max_frame_bytes params = unwrap_or (get_ext_uint params 25) 65536

abbrev pub timeout_of : ScopeParams → ℕ
timeout_of params = unwrap_or (get_ext_uint params 26) 60

-- A stream that starts now.
abbrev pub new_stream :
    ℕ → ℕ → PeerId → Text → StreamMode → ℕ → Option Text → StreamDirection → ℕ → StreamState
new_stream now id p codec mode bitrate label direction timeout = record {
  stream_id = id;
  peer_id = p;
  codec = codec;
  mode = mode;
  bitrate_kbps = bitrate;
  label = label;
  direction = direction;
  paused = false;
  next_sequence = 0;
  last_received_seq = 0;
  created_at = now;
  last_activity = now;
  bytes_transferred = 0;
  frames_transferred = 0;
  timeout_secs = timeout;
}

-- ===== src/Capabilities/Stream/Transfer.antt =====
-- The frames of a stream on their way.
use mathlib.Core.Option
use howm.Base.{
  ℕ, ◌+◌, ◌%◌, ◌^◌, ◌≡◌, refl, Option, none, some, List, [], ◌∷◌, ◌++◌, append-nil, append_assoc,
  Bytes, bytes_ord, nat_ord, pair_ord, insert, length,
}
use howm.Protocol.Manifest.{PeerId}
use howm.Protocol.Message.{ProtocolMessage}
use howm.Protocol.Cbor.Codec.{Codec}
use howm.Capabilities.Payload.{CapabilityContext, cbor_encode_map, make_capability_msg}
use howm.Capabilities.Stream.{
  StreamMode, StreamState, StreamDataSink, StreamHandler, SinkCall, on_stream_data, stream_data,
  stream_send_msg,
}
use howm.Capabilities.Stream.Messages.{data_pairs, advance, count_sent, send_frame}
use howm.Capabilities.Stream.Handlers.{stream_on_message}

-- A frame, the time at which it is handled and its own timestamp.
pub record Frame : Type 0 where
  pub now : ℕ
  pub contents : Bytes
  pub timestamp : Option ℕ

-- The sequence after a frame.
abbrev pub next_after : StreamMode → ℕ → Frame → ℕ
next_after mode seq f = (seq + advance mode (length f.contents)) % 2 ^ 64

-- What the callback is told of the frames of a stream whose first has the sequence `seq`.
abbrev pub arrivals : ℕ → PeerId → StreamMode → ℕ → List Frame → List SinkCall
arrivals id p mode seq [] = []
arrivals id p mode seq (f ∷ fs) =
    on_stream_data id p f.contents seq f.timestamp ∷ arrivals id p mode (next_after mode seq f) fs

abbrev pub logged : List SinkCall → StreamDataSink → StreamDataSink
logged cs s = record s { calls = s.calls ++ cs }

pub logged_twice :
    (cs ds : List SinkCall) (s : Option StreamDataSink)
    → Option.map (logged ds) (Option.map (logged cs) s) ≡ Option.map (logged (cs ++ ds)) s
logged_twice cs ds none = refl
logged_twice cs ds (some s) = rw (append_assoc s.calls cs ds) refl

pub logged_none : (s : Option StreamDataSink) → s ≡ Option.map (logged []) s
logged_none none = refl
logged_none (some s) = rw (append-nil s.calls) refl

module _ (wire : Codec) where
  abbrev pub frame_payload : ℕ → ℕ → Frame → Bytes
  frame_payload id seq f = cbor_encode_map wire (data_pairs id f.contents seq f.timestamp)

  abbrev pub letters : ℕ → StreamMode → ℕ → List Frame → List ProtocolMessage
  letters id mode seq [] = []
  letters id mode seq (f ∷ fs) =
      make_capability_msg stream_data (frame_payload id seq f)
      ∷ letters id mode (next_after mode seq f) fs

  -- The frames sent one after the other.
  abbrev pub send_frames : PeerId → ℕ → List Frame → StreamHandler → StreamHandler
  send_frames p id [] h = h
  send_frames p id (f ∷ fs) h =
      send_frames p id fs (send_frame wire f.now p id f.contents f.timestamp h).0

  -- The frames' messages handled one after the other.
  abbrev pub receive_frames :
      CapabilityContext → ℕ → StreamMode → ℕ → List Frame → StreamHandler → StreamHandler
  receive_frames ctx id mode seq [] h = h
  receive_frames ctx id mode seq (f ∷ fs) h =
      receive_frames ctx id mode (next_after mode seq f) fs
        (stream_on_message wire f.now stream_data ctx (frame_payload id seq f) h).0

  abbrev sent_on : PeerId → ℕ → Frame → StreamState → StreamHandler → StreamHandler
  sent_on p id f st h =
      stream_send_msg p stream_data (frame_payload id st.next_sequence f)
        (record h { streams = insert (p, id) (count_sent f.now (length f.contents) st) h.streams })

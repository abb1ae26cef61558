-- ===== src/Capabilities/Stream/Handshake.antt =====
-- A stream from its request to the answer.

use howm.Base.{
  ℕ, not, ◌&&◌, Bool, Option, Text, bytes_ord, nat_ord, pair_ord, length, leb, if◌then◌else◌, bytes,
}
use howm.Protocol.Manifest.{PeerId}
use howm.Protocol.Scope.{ScopeParams}
use howm.Protocol.Cbor.Codec.{Codec}
use howm.Capabilities.Payload.{CapabilityContext}
use howm.Capabilities.Stream.{StreamMode, StreamHandler, to_u64, max_concurrent}
use howm.Capabilities.Stream.Messages.{accepted, rejected}
use howm.Capabilities.Stream.Handlers.{OpenRequest, accepts_stream}

-- The contexts of a session's messages: whom it is with, and its parameters.
abbrev pub stream_from : PeerId → ScopeParams → CapabilityContext
stream_from p params = record {
  peer_id = p;
  params = params;
  capability_name = bytes "core.data.stream.1";
}

abbrev pub request_of : ℕ → Text → StreamMode → ℕ → Option Text → OpenRequest
request_of n name mode kbps title = record {
  id = n;
  codec = name;
  bitrate = kbps;
  label = title;
  mode_val = to_u64 mode;
}

-- The receiver has room, and its callback accepts.
abbrev pub takes : CapabilityContext → OpenRequest → StreamHandler → Bool
takes ctx r h =
    not (leb (max_concurrent ctx.params) (length h.streams))
    && accepts_stream r ctx.peer_id h.data_sink

abbrev pub answer : Bool → ℕ
answer b = if b then accepted else rejected

-- ===== src/Examples/Streams.antt =====
-- Peer 1 streams to peer 2.
use mathlib.Core.Option
use howm.Base.{
  ◌≡◌, true, none, some, List, [], ◌∷◌, Text, bytes, lookup, bytes_ord, nat_ord, pair_ord,
}
use howm.Protocol.Manifest.{PeerId}
use howm.Protocol.Scope.{default_params}
use howm.Capabilities.Stream.{
  StreamState, StreamHandler, new_streams, new_stream, raw, sending, receiving, on_stream_closed,
}
use howm.Capabilities.Stream.Cleanup.{reap_and_notify, stream_on_deactivated}
use howm.Capabilities.Stream.Handshake.{stream_from}
use howm.Capabilities.Stream.Transfer.{Frame, logged}
use howm.Capabilities.Stream.Endings.{
  timeout_notice, reap_and_notify_lem, stream_on_deactivated_lem,
}
use howm.Examples.Manifests.{peer_id_of}
use howm.Examples.StackCodec.{stack_codec}

abbrev alice_id : PeerId
alice_id = peer_id_of 1

abbrev bob_id : PeerId
bob_id = peer_id_of 2

abbrev alice : StreamHandler
alice = record new_streams { peer_senders = (bob_id, []) ∷ [] }

abbrev bob : StreamHandler
bob = record new_streams {
  peer_senders = (alice_id, []) ∷ [];
  data_sink = some (record { accepts = λ calls id p name title mode. true; calls = [] });
}

abbrev opus : Text
opus = bytes "audio/opus"

abbrev outbound : StreamState
outbound = new_stream 50 5 bob_id opus raw 64 none sending 60

abbrev inbound : StreamState
inbound = new_stream 50 5 alice_id opus raw 64 none receiving 60

abbrev sender : StreamHandler
sender = record alice { streams = ((bob_id, 5), outbound) ∷ [] }

abbrev receiver : StreamHandler
receiver = record bob { streams = ((alice_id, 5), inbound) ∷ [] }

abbrev frames : List Frame
frames =
    record { now = 51; contents = 1 ∷ 2 ∷ 3 ∷ []; timestamp = none }
    ∷ record { now = 52; contents = 4 ∷ []; timestamp = some 9 }
    ∷ []

-- A stream with a last activity at 50 and a timeout of 60 seconds.
reap_and_notify_lem_example :
    let receiver' = reap_and_notify stack_codec 111 receiver in
    (receiver'.streams ≡ [])
    × (receiver'.data_sink ≡ Option.map (logged (on_stream_closed 5 alice_id 2 ∷ [])) bob.data_sink)
    × (lookup alice_id receiver'.peer_senders
        ≡ some (timeout_notice stack_codec (alice_id, 5) ∷ []))
unfolding lookup
reap_and_notify_lem_example = reap_and_notify_lem stack_codec 111 alice_id receiver

stream_on_deactivated_lem_example :
    let receiver' = stream_on_deactivated (stream_from alice_id default_params) receiver in
    (receiver'.streams ≡ [])
    × (receiver'.data_sink ≡ Option.map (logged (on_stream_closed 5 alice_id 0 ∷ [])) bob.data_sink)
stream_on_deactivated_lem_example =
    stream_on_deactivated_lem (stream_from alice_id default_params) receiver (tt, tt)

-- ===== src/Examples/Events.antt =====
-- Peer 1 subscribes to a topic and leaves it.
use howm.Base.{◌≡◌, true, false, [], ◌∷◌, Text, bytes}
use howm.Protocol.Scope.{default_params}
use howm.Protocol.Cbor.Values.{text}
use howm.Capabilities.Payload.{CapabilityContext, cbor_encode_map}
use howm.Capabilities.Event.{
  EventHandler, event_sub, event_unsub, topic_key, is_subscribed, event_on_message,
  event_on_message-is_subscribed,
}
use howm.Examples.Manifests.{peer_id_of}
use howm.Examples.StackCodec.{stack_codec}

abbrev ctx : CapabilityContext
ctx = record {
  peer_id = peer_id_of 1;
  params = default_params;
  capability_name = bytes "core.data.event.1";
}

abbrev news : Text
news = bytes "news"

abbrev reader : EventHandler
reader = record { subscriptions = (news, peer_id_of 1 ∷ peer_id_of 2 ∷ []) ∷ [] }

event_on_message-is_subscribed_example :
    let payload = cbor_encode_map stack_codec ((topic_key, text news) ∷ []) in
    (is_subscribed (peer_id_of 1) news (event_on_message stack_codec event_sub ctx payload reader).0
      ≡ true)
    × (is_subscribed
          (peer_id_of 1)
          news
          (event_on_message stack_codec event_unsub ctx payload reader).0
        ≡ false)
event_on_message-is_subscribed_example =
    event_on_message-is_subscribed stack_codec ctx news reader (peer_id_of 1) news

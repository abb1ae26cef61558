-- ===== src/Examples/Liveness.antt =====
-- An active session's heartbeat, and a call.
use howm.Base.{◌≡◌, refl, true, false, List, [], ◌∷◌, Text, ok, bytes, bytes_ord, nat_ord, arith}
use howm.Protocol.Manifest.{PeerId}
use howm.Protocol.Message.{ProtocolMessage, offer, ping, pong, capability_msg}
use howm.Protocol.Scope.{default_params}
use howm.Session.Mux.{
  build_session_mux, mux_messages, new_responder, responder_messages, pings_answered,
}
use howm.Session.Heartbeat.{HeartbeatManager, Round, run, new_manager, answered, timed_out}
use howm.Session.Heartbeat.Liveness.{silent_peer_detected, answering_peer_kept}
use howm.Capabilities.Payload.{CapabilityContext}
use howm.Capabilities.Rpc.{RpcHandler, new_rpc}
use howm.Examples.Manifests.{peer_id_of, provider}

abbrev inbound : List ProtocolMessage
inbound = ping 1 ∷ capability_msg 22 (7 ∷ []) ∷ pong 5 ∷ offer provider ∷ ping 2 ∷ []

pings_answered_example :
    let mux = mux_messages inbound build_session_mux in
    let responder = responder_messages mux.heartbeat new_responder in
    (mux.capability ≡ capability_msg 22 (7 ∷ []) ∷ [])
    × (responder.sent ≡ pong 1 ∷ pong 2 ∷ [])
    × (responder.passed_on ≡ pong 5 ∷ [])
pings_answered_example = pings_answered inbound

abbrev lost : Round
lost = record { ts = 100; sends = true; arrived = pong 99 ∷ []; closes = false; now = 115 }

abbrev in_time : Round
in_time = record {
  ts = 100;
  sends = true;
  arrived = pong 99 ∷ pong 100 ∷ [];
  closes = false;
  now = 104;
}

abbrev manager : HeartbeatManager
manager = new_manager (peer_id_of 2)

silent_peer_detected_example :
    let h = run (lost ∷ lost ∷ lost ∷ []) manager in
    (h.returned ≡ true) × (h.events ≡ timed_out (peer_id_of 2) ∷ [])
silent_peer_detected_example =
    silent_peer_detected (lost ∷ lost ∷ lost ∷ []) manager refl (refl, (refl, (refl, tt)))
      (omega arith) (omega arith)

answering_peer_kept_example :
    let h = run (in_time ∷ in_time ∷ []) manager in
    (h.returned ≡ false) × (h.events ≡ answered (peer_id_of 2) 4 ∷ answered (peer_id_of 2) 4 ∷ [])
answering_peer_kept_example =
    answering_peer_kept (in_time ∷ in_time ∷ []) manager refl ((refl, refl), ((refl, refl), tt))

abbrev rpc_from : PeerId → CapabilityContext
rpc_from p = record {
  peer_id = p;
  params = default_params;
  capability_name = bytes "core.data.rpc.1";
}

abbrev echo : Text
echo = bytes "echo"

abbrev callee : RpcHandler
callee = record new_rpc {
  methods = (echo, λ argument ctx. ok argument) ∷ [];
  peer_senders = (peer_id_of 1, []) ∷ [];
}

-- ===== src/Capabilities/Relay/Circuits.antt =====
-- A circuit from its opening to its data: what the initiator, the relay and the target do in turn.
use mathlib.Core.Option
use howm.Base.{
  bytes, ℕ, ◌≡◌, ◌<◌, refl, true, false, Option, none, some, List, [], ◌∷◌, ◌++◌, bytes_ord,
  nat_ord, lookup, lookup-insert_self, lookup-remove_self, length, leb, is_some, arith,
}
use howm.Protocol.Manifest.{PeerId, IsPeerId}
use howm.Protocol.Message.{ProtocolMessage}
use howm.Protocol.Scope.{ScopeParams}
use howm.Protocol.Cbor.Codec.{Codec}
use howm.Capabilities.Payload.{CapabilityContext, make_capability_msg}
use howm.Capabilities.Senders.{appended, lookup-send_msg_self}
use howm.Capabilities.Relay.{
  Circuit, RelayHandler, circuit_open, accepted, initiate_circuit, send_to_peer, fire_event,
  open_payload, forwarded_payload, status_payload, max_circuits, as_initiator, as_target, opened,
}
use howm.Capabilities.Relay.Handlers.{
  new_circuit, target_end, initiator_end, handle_open, accept_forwarded, request_circuit,
  forward_status,
}
use howm.Capabilities.Relay.Messages.{
  handle_open-open_payload, handle_open-forwarded_payload, handle_open-status_payload,
}

-- The messages put into the channel of a peer.
abbrev pub sent_to : PeerId → RelayHandler → Option (List ProtocolMessage)
sent_to p h = lookup p h.peer_senders

initiated :
    (codec : Codec) (b c : PeerId) (alice : RelayHandler)
    → let id = alice.next_circuit_id in
      let alice' = (initiate_circuit codec c b alice).0 in
      (sent_to c alice'
        ≡ appended (make_capability_msg circuit_open (open_payload codec id b)) (sent_to c alice))
      × (lookup id alice'.pending_initiations ≡ some b)
unfolding initiate_circuit
initiated codec b c alice =
    let id = alice.next_circuit_id in
    (
      lookup-send_msg_self c (make_capability_msg circuit_open (open_payload codec id b))
          alice.peer_senders,
      lookup-insert_self id b alice.pending_initiations,
    )

-- The relay has room, and a channel to the target.
pub requested :
    (codec : Codec) (now id : ℕ) (b : PeerId) (ctx : CapabilityContext) (carol : RelayHandler)
    → IsPeerId b
    → length carol.circuits < max_circuits ctx.params
    → is_some (sent_to b carol) ≡ true
    → let carol' = request_circuit codec now ctx id b carol in
      (sent_to b carol'
        ≡ appended
            (make_capability_msg circuit_open (forwarded_payload codec id ctx.peer_id))
            (sent_to b carol))
      × (lookup id carol'.circuits ≡ some (new_circuit now id ctx b))
unfolding request_circuit
requested codec now id b ctx carol size room known =
    rw (size, full, known)
      (
        lookup-send_msg_self b
            (make_capability_msg circuit_open (forwarded_payload codec id ctx.peer_id))
            carol.peer_senders,
        lookup-insert_self id (new_circuit now id ctx b) carol.circuits,
      )
  where
    full : leb (max_circuits ctx.params) (length carol.circuits) ≡ false
    full = ground arith

-- The target accepts.
accepted_by_target :
    (codec : Codec) (id : ℕ) (a : PeerId) (ctx : CapabilityContext) (bob : RelayHandler)
    → IsPeerId a
    → let bob' = accept_forwarded codec ctx id a bob in
      (sent_to ctx.peer_id bob'
        ≡ appended
            (make_capability_msg circuit_open (status_payload codec id accepted))
            (sent_to ctx.peer_id bob))
      × (lookup id bob'.endpoint_circuits ≡ some (target_end id ctx.peer_id a))
      × (bob'.event_tx ≡ Option.map (λ es. es ++ opened id a as_target ∷ []) bob.event_tx)
unfolding accept_forwarded
accepted_by_target codec id a ctx bob size = rw size (
  lookup-send_msg_self ctx.peer_id
      (make_capability_msg circuit_open (status_payload codec id accepted)) bob.peer_senders,
  lookup-insert_self id (target_end id ctx.peer_id a) bob.endpoint_circuits,
  refl,
)

-- The relay forwards the acceptance of a circuit that it holds.
forwarded_status :
    (codec : Codec) (id status : ℕ) (ctx : CapabilityContext) (carol : RelayHandler) (r : Circuit)
    → lookup id carol.circuits ≡ some r
    → let carol' = forward_status codec ctx id status carol (lookup id carol.circuits) in
      (sent_to r.initiator carol'
        ≡ appended
            (make_capability_msg circuit_open (status_payload codec id status))
            (sent_to r.initiator carol))
      × (carol'.circuits ≡ carol.circuits)
unfolding send_to_peer
forwarded_status codec id status ctx carol r held = rw held (
  lookup-send_msg_self r.initiator
      (make_capability_msg circuit_open (status_payload codec id status)) carol.peer_senders,
  refl,
)

-- The initiator, which relays no circuit of the number, takes any status for an acceptance.
opened_by_status :
    (codec : Codec) (id status : ℕ) (b : PeerId) (ctx : CapabilityContext) (alice : RelayHandler)
    → lookup id alice.circuits ≡ none
    → lookup id alice.pending_initiations ≡ some b
    → let alice' = forward_status codec ctx id status alice (lookup id alice.circuits) in
      (lookup id alice'.endpoint_circuits ≡ some (initiator_end id ctx.peer_id b))
      × (lookup id alice'.pending_initiations ≡ none)
      × (alice'.event_tx ≡ Option.map (λ es. es ++ opened id b as_initiator ∷ []) alice.event_tx)
unfolding fire_event
opened_by_status codec id status b ctx alice free waiting =
    rw (free, waiting)
      (
        lookup-insert_self id (initiator_end id ctx.peer_id b) alice.endpoint_circuits,
        lookup-remove_self id alice.pending_initiations,
        refl,
      )

initiate_circuit-circuits :
    (codec : Codec) (b c : PeerId) (alice : RelayHandler)
    → (initiate_circuit codec c b alice).0.circuits ≡ alice.circuits
unfolding initiate_circuit
initiate_circuit-circuits codec b c alice = refl

-- The contexts of a session's messages: whom it is with, and its parameters.
abbrev pub from : PeerId → ScopeParams → CapabilityContext
from p params = record {
  peer_id = p;
  params = params;
  capability_name = bytes "core.network.relay.1";
}

-- The four messages that open a circuit from `a` over the relay `c` to `b`, each handled when it comes in:
-- the initiator ends with an end to `b` through `c`, the target with an end to `a` through `c`, and the
-- relay holds the circuit of both. Each of the messages is in its sender's channel to the receiver, if it has
-- one. The relay has room, and a channel to `b`; `a` relays no circuit of that number.
pub circuit_opens :
    (codec : Codec) (now : ℕ) (a b c : PeerId) (with_a with_b with_c : ScopeParams)
    (alice bob carol : RelayHandler)
    → IsPeerId a
    → IsPeerId b
    → lookup alice.next_circuit_id alice.circuits ≡ none
    → length carol.circuits < max_circuits with_a
    → is_some (sent_to b carol) ≡ true
    → let id = alice.next_circuit_id in
      let ask = open_payload codec id b in
      let forward = forwarded_payload codec id a in
      let answer = status_payload codec id accepted in
      let alice1 = (initiate_circuit codec c b alice).0 in
      let carol1 = (handle_open codec now (from a with_a) ask carol).0 in
      let bob1 = (handle_open codec now (from c with_c) forward bob).0 in
      let carol2 = (handle_open codec now (from b with_b) answer carol1).0 in
      let alice2 = (handle_open codec now (from c with_c) answer alice1).0 in
      (sent_to c alice1 ≡ appended (make_capability_msg circuit_open ask) (sent_to c alice))
      × (sent_to b carol1 ≡ appended (make_capability_msg circuit_open forward) (sent_to b carol))
      × (sent_to c bob1 ≡ appended (make_capability_msg circuit_open answer) (sent_to c bob))
      × (sent_to a carol2 ≡ appended (make_capability_msg circuit_open answer) (sent_to a carol1))
      × (lookup id alice2.endpoint_circuits ≡ some (initiator_end id c b))
      × (lookup id bob1.endpoint_circuits ≡ some (target_end id c a))
      × (lookup id carol2.circuits ≡ some (new_circuit now id (from a with_a) b))
circuit_opens codec now a b c with_a with_b with_c alice bob carol size_a size_b free room known =
    let id = alice.next_circuit_id in
    let start = initiated codec b c alice in
    let asked = requested codec now id b (from a with_a) carol size_b room known in
    let took = accepted_by_target codec id a (from c with_c) bob size_a in
    let carol1 = request_circuit codec now (from a with_a) id b carol in
    let held =
      forwarded_status codec id accepted (from b with_b) carol1
        (new_circuit now id (from a with_a) b) asked.1 in
    let alice1 = (initiate_circuit codec c b alice).0 in
    let unheld : lookup id alice1.circuits ≡ none =
      rw (initiate_circuit-circuits codec b c alice) free in
    let done = opened_by_status codec id accepted b (from c with_c) alice1 unheld start.1 in
    rw
      (
        handle_open-open_payload codec now (from a with_a) id carol b,
        handle_open-forwarded_payload codec now (from c with_c) id bob a,
        handle_open-status_payload codec now (from b with_b) id carol1 accepted,
        handle_open-status_payload codec now (from c with_c) id alice1 accepted,
      )
      (start.0, asked.0, took.0, held.0, done.0, took.1, rw held.1 asked.1)

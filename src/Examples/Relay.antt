-- ===== src/Examples/Relay.antt =====
-- Peer 1 opens a circuit to peer 3 over peer 2 and uses it.
use mathlib.Core.Option
use howm.Base.{◌≡◌, refl, none, some, [], ◌∷◌, ℕ, insert, lookup, bytes_ord, nat_ord, arith}
use howm.Protocol.Manifest.{PeerId}
use howm.Protocol.Scope.{ScopeValue, ScopeParams, default_params, as_uint, get_ext_uint}
use howm.Capabilities.Payload.{make_capability_msg}
use howm.Capabilities.Senders.{appended}
use howm.Capabilities.Relay.{
  Circuit, EndpointCircuit, RelayHandler, new_relay, add_peer_sender, initiate_circuit,
  circuit_open, open_payload, forwarded_payload, status_payload, data_payload, accepted,
}
use howm.Capabilities.Relay.Handlers.{
  new_circuit, target_end, initiator_end, handle_open, handle_data, put_circuit,
}
use howm.Capabilities.Relay.Cleanup.{relay_on_deactivated}
use howm.Capabilities.Relay.Circuits.{sent_to, from, circuit_opens}
use howm.Capabilities.Relay.Data.{circuit_taken_over}
use howm.Capabilities.Relay.Deactivation.{relay_on_deactivated_lem}
use howm.Capabilities.Relay.Runs.{
  Admitted, start, after_add_sender, after_admission, after_insertion,
}
use howm.Capabilities.Relay.Bound.{Bounded, Reached-Bounded}
use howm.Examples.Manifests.{peer_id_of}
use howm.Examples.StackCodec.{stack_codec}

abbrev alice_id : PeerId
alice_id = peer_id_of 1

abbrev carol_id : PeerId
carol_id = peer_id_of 2

abbrev bob_id : PeerId
bob_id = peer_id_of 3

abbrev alice : RelayHandler
alice = record new_relay { peer_senders = (carol_id, []) ∷ []; event_tx = some [] }

abbrev bob : RelayHandler
bob = record new_relay { peer_senders = (carol_id, []) ∷ []; event_tx = some [] }

abbrev carol : RelayHandler
carol = record new_relay { peer_senders = (alice_id, []) ∷ (bob_id, []) ∷ [] }

circuit_opens_example :
    let ask = open_payload stack_codec 1 bob_id in
    let forward = forwarded_payload stack_codec 1 alice_id in
    let answer = status_payload stack_codec 1 accepted in
    let alice1 = (initiate_circuit stack_codec carol_id bob_id alice).0 in
    let carol1 = (handle_open stack_codec 50 (from alice_id default_params) ask carol).0 in
    let bob1 = (handle_open stack_codec 50 (from carol_id default_params) forward bob).0 in
    let carol2 = (handle_open stack_codec 50 (from bob_id default_params) answer carol1).0 in
    let alice2 = (handle_open stack_codec 50 (from carol_id default_params) answer alice1).0 in
    (sent_to carol_id alice1
      ≡ appended (make_capability_msg circuit_open ask) (sent_to carol_id alice))
    × (sent_to bob_id carol1
        ≡ appended (make_capability_msg circuit_open forward) (sent_to bob_id carol))
    × (sent_to carol_id bob1
        ≡ appended (make_capability_msg circuit_open answer) (sent_to carol_id bob))
    × (sent_to alice_id carol2
        ≡ appended (make_capability_msg circuit_open answer) (sent_to alice_id carol1))
    × (lookup 1 alice2.endpoint_circuits ≡ some (initiator_end 1 carol_id bob_id))
    × (lookup 1 bob1.endpoint_circuits ≡ some (target_end 1 carol_id alice_id))
    × (lookup 1 carol2.circuits ≡ some (new_circuit 50 1 (from alice_id default_params) bob_id))
unfolding lookup get_ext_uint Option.bind
circuit_opens_example =
    circuit_opens stack_codec 50 alice_id bob_id carol_id default_params default_params
      default_params alice bob carol refl refl refl (omega arith) refl

abbrev circuit : Circuit
circuit = new_circuit 50 1 (from alice_id default_params) bob_id

abbrev relaying : RelayHandler
relaying = record carol { circuits = (1, circuit) ∷ [] }

abbrev near : EndpointCircuit
near = initiator_end 1 carol_id bob_id

abbrev far : EndpointCircuit
far = target_end 1 carol_id alice_id

abbrev sender : RelayHandler
sender = record alice { endpoint_circuits = (1, near) ∷ [] }

abbrev receiver : RelayHandler
receiver = record bob { endpoint_circuits = (1, far) ∷ [] }

circuit_taken_over_example :
    let ask = open_payload stack_codec 1 bob_id in
    let letter = data_payload stack_codec 1 (7 ∷ []) in
    let relaying1 = (handle_open stack_codec 60 (from carol_id default_params) ask relaying).0 in
    let relaying2 =
      (handle_data stack_codec 60 (from alice_id default_params) letter relaying1).0 in
    (lookup 1 relaying1.circuits ≡ some (new_circuit 60 1 (from carol_id default_params) bob_id))
    × (relaying2.peer_senders ≡ relaying1.peer_senders)
unfolding lookup get_ext_uint Option.bind
circuit_taken_over_example =
    circuit_taken_over stack_codec 1 (7 ∷ []) 60 alice_id carol_id bob_id default_params
      default_params relaying refl (omega arith) refl refl refl

relay_on_deactivated_lem_example :
    let relaying' = relay_on_deactivated stack_codec (from alice_id default_params) relaying in
    (relaying'.circuits ≡ [])
    × (relaying'.endpoint_circuits ≡ [])
    × (lookup alice_id relaying'.peer_senders ≡ none)
relay_on_deactivated_lem_example =
    relay_on_deactivated_lem stack_codec (from alice_id default_params) relaying (tt, tt) tt

-- Agreed on one circuit at most.
abbrev one_circuit : ScopeParams
one_circuit = record default_params { extensions = (9, ScopeValue.uint 1) ∷ [] }

abbrev request_of : PeerId → ℕ → Admitted
request_of p id = record { ctx = from p one_circuit; circuit_id = id; target = bob_id }

-- Two tasks look for room before either has put its circuit in.
Reached-Bounded_example :
    let h = put_circuit stack_codec 51 (from carol_id one_circuit) 2 bob_id (
      put_circuit stack_codec 50
        (from alice_id one_circuit)
        1
        bob_id
        (add_peer_sender bob_id new_relay)) in
    Bounded 1 2 [] h
unfolding get_ext_uint Option.bind lookup insert add_peer_sender as_uint
Reached-Bounded_example = Reached-Bounded stack_codec 1 2 (
    after_insertion [] [] 51 (request_of carol_id 2) (
      after_insertion (request_of carol_id 2 ∷ []) [] 50 (request_of alice_id 1) (
        after_admission (request_of carol_id 2) (omega arith) (omega arith) refl (
          after_admission (request_of alice_id 1) (omega arith) (omega arith) refl
            (after_add_sender bob_id (start (omega arith)))))))

-- They are both put in, one more than was agreed.
two_circuits :
    (put_circuit stack_codec 51 (from carol_id one_circuit) 2 bob_id (
      put_circuit stack_codec 50
        (from alice_id one_circuit)
        1
        bob_id
        (add_peer_sender bob_id new_relay))).circuits
    ≡ (1, new_circuit 50 1 (from alice_id one_circuit) bob_id)
      ∷ (2, new_circuit 51 2 (from carol_id one_circuit) bob_id)
      ∷ []
unfolding put_circuit insert add_peer_sender
two_circuits = refl

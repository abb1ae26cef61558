-- ===== src/Capabilities/Relay.antt =====
-- node/p2pcd/src/capabilities/relay.rs: the circuits that a node relays and those that it is an end of.
-- Each handler is one step, but for the request for a circuit (Runs); the clock is an argument.
pub mod Handlers
pub mod Cleanup
pub mod Messages
pub mod Circuits
pub mod Data
pub mod Limit
pub mod Deactivation
pub mod Runs
pub mod Bound
use mathlib.Core.Option
use howm.Base.{
  ℕ, ◌+◌, ◌-◌, ◌%◌, ◌^◌, Bool, true, false, Option, none, some, List, [], ◌∷◌, ◌++◌, Bytes,
  bytes_ord, nat_ord, ◌==◌, Map, lookup, insert, remove, length, ltb, unwrap_or, if◌then◌else◌,
  Result, ok, err,
}
use howm.Protocol.Manifest.{PeerId}
use howm.Protocol.Scope.{ScopeParams, get_ext_uint}
use howm.Protocol.Cbor.Values.{Value, bytes, int_value}
use howm.Protocol.Cbor.Codec.{Codec}
use howm.Capabilities.Payload.{cbor_encode_map, make_capability_msg}
use howm.Capabilities.Senders.{Senders, send_msg}

-- The numbers of the messages, of the keys of their payloads and of the reasons.
abbrev pub circuit_open : ℕ
circuit_open = 13

abbrev pub circuit_data : ℕ
circuit_data = 14

abbrev pub circuit_close : ℕ
circuit_close = 15

abbrev pub circuit_id_key : ℕ
circuit_id_key = 1

abbrev pub target_peer_key : ℕ
target_peer_key = 2

abbrev pub initiator_peer_key : ℕ
initiator_peer_key = 3

abbrev pub data_key : ℕ
data_key = 4

abbrev pub close_reason_key : ℕ
close_reason_key = 5

abbrev pub status_key : ℕ
status_key = 6

abbrev pub normal : ℕ
normal = 0

abbrev pub target_unreachable : ℕ
target_unreachable = 1

abbrev pub capacity_exceeded : ℕ
capacity_exceeded = 2

abbrev pub ttl_expired : ℕ
ttl_expired = 3

abbrev pub accepted : ℕ
accepted = 0

pub record Circuit : Type 0 where
  pub circuit_id : ℕ
  pub initiator : PeerId
  pub target : PeerId
  pub created_at : ℕ
  pub bytes_relayed : ℕ
  pub ttl_secs : ℕ

unfoldable pub is_expired : ℕ → Circuit → Bool
is_expired now c = ltb c.ttl_secs (now - c.created_at)

unfoldable pub other_end : PeerId → Circuit → Option PeerId
other_end p c =
    if p == c.initiator then some c.target else if p == c.target then some c.initiator else none

pub data EndpointRole : Type 0 where
  as_initiator as_target : EndpointRole

pub record EndpointCircuit : Type 0 where
  pub circuit_id : ℕ
  pub relay_peer : PeerId
  pub remote_peer : PeerId
  pub role : EndpointRole

pub data CircuitEvent : Type 0 where
  opened : ℕ → PeerId → EndpointRole → CircuitEvent
  received : ℕ → PeerId → Bytes → CircuitEvent
  closed : ℕ → ℕ → CircuitEvent

-- `event_tx` is the events sent so far, where there is a callback.
pub record RelayHandler : Type 0 where
  pub circuits : Map ℕ Circuit
  pub endpoint_circuits : Map ℕ EndpointCircuit
  pub pending_initiations : Map ℕ PeerId
  pub peer_senders : Senders
  pub event_tx : Option (List CircuitEvent)
  pub next_circuit_id : ℕ

abbrev pub new_relay : RelayHandler
new_relay = record {
  circuits = [];
  endpoint_circuits = [];
  pending_initiations = [];
  peer_senders = [];
  event_tx = none;
  next_circuit_id = 1;
}

unfoldable pub add_peer_sender : PeerId → RelayHandler → RelayHandler
add_peer_sender p h = record h { peer_senders = insert p [] h.peer_senders }

unfoldable pub remove_peer_sender : PeerId → RelayHandler → RelayHandler
remove_peer_sender p h = record h { peer_senders = remove p h.peer_senders }

unfoldable pub set_event_callback : RelayHandler → RelayHandler
set_event_callback h = record h { event_tx = some [] }

unfoldable pub fire_event : CircuitEvent → RelayHandler → RelayHandler
fire_event e h = record h { event_tx = Option.map (λ es. es ++ e ∷ []) h.event_tx }

unfoldable pub send_to_peer : PeerId → ℕ → Bytes → RelayHandler → RelayHandler
send_to_peer p msg_type payload h = record h {
  peer_senders = send_msg p (make_capability_msg msg_type payload) h.peer_senders;
}

abbrev pub default_max_circuits : ℕ
default_max_circuits = 16

abbrev pub default_ttl_secs : ℕ
default_ttl_secs = 300

abbrev pub circuit_count : RelayHandler → ℕ
circuit_count h = length h.circuits

abbrev pub endpoint_circuit_count : RelayHandler → ℕ
endpoint_circuit_count h = length h.endpoint_circuits

abbrev pub max_circuits : ScopeParams → ℕ
max_circuits params = unwrap_or (get_ext_uint params 9) default_max_circuits

abbrev pub ttl_of : ScopeParams → ℕ
ttl_of params = unwrap_or (get_ext_uint params 11) default_ttl_secs

module _ (codec : Codec) where
  -- The payloads.
  abbrev pub open_payload : ℕ → PeerId → Bytes
  open_payload id target =
      cbor_encode_map codec ((circuit_id_key, int_value id) ∷ (target_peer_key, bytes target) ∷ [])

  abbrev pub forwarded_payload : ℕ → PeerId → Bytes
  forwarded_payload id initiator =
      cbor_encode_map codec
        ((circuit_id_key, int_value id) ∷ (initiator_peer_key, bytes initiator) ∷ [])

  abbrev pub status_payload : ℕ → ℕ → Bytes
  status_payload id status =
      cbor_encode_map codec ((circuit_id_key, int_value id) ∷ (status_key, int_value status) ∷ [])

  abbrev pub data_payload : ℕ → Bytes → Bytes
  data_payload id contents =
      cbor_encode_map codec ((circuit_id_key, int_value id) ∷ (data_key, bytes contents) ∷ [])

  abbrev pub close_payload : ℕ → ℕ → Bytes
  close_payload id reason =
      cbor_encode_map codec
        ((circuit_id_key, int_value id) ∷ (close_reason_key, int_value reason) ∷ [])

  -- The counter is an `AtomicU64`.
  unfoldable pub initiate_circuit : PeerId → PeerId → RelayHandler → RelayHandler × ℕ
  unfolding send_to_peer
  initiate_circuit relay target h =
      let id = h.next_circuit_id in
      let h' : RelayHandler = record h {
        next_circuit_id = (id + 1) % 2 ^ 64;
        pending_initiations = insert id target h.pending_initiations;
      } in
      (send_to_peer relay circuit_open (open_payload id target) h', id)

  -- The error is `no endpoint circuit`.
  abbrev pub send_data_on :
      ℕ → Bytes → RelayHandler → Option EndpointCircuit → RelayHandler × Result ℕ (Unit {0})
  send_data_on id contents h none = (h, err id)
  send_data_on id contents h (some c) =
      (send_to_peer c.relay_peer circuit_data (data_payload id contents) h, ok tt)

  unfoldable pub send_circuit_data : ℕ → Bytes → RelayHandler → RelayHandler × Result ℕ (Unit {0})
  unfolding send_to_peer
  send_circuit_data id contents h = send_data_on id contents h (lookup id h.endpoint_circuits)

  abbrev pub close_endpoint :
      ℕ → RelayHandler → Option EndpointCircuit → RelayHandler × Result ℕ (Unit {0})
  close_endpoint id h none = (h, err id)
  close_endpoint id h (some c) =
      let h' : RelayHandler = record h {
        endpoint_circuits = remove id h.endpoint_circuits;
        pending_initiations = remove id h.pending_initiations;
      } in
      (send_to_peer c.relay_peer circuit_close (close_payload id normal) h', ok tt)

  unfoldable pub close_endpoint_circuit : ℕ → RelayHandler → RelayHandler × Result ℕ (Unit {0})
  unfolding send_to_peer
  close_endpoint_circuit id h = close_endpoint id h (lookup id h.endpoint_circuits)

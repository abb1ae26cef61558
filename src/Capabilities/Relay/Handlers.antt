-- ===== src/Capabilities/Relay/Handlers.antt =====
-- node/p2pcd/src/capabilities/relay.rs: the handlers of the three messages.
use howm.Base.{
  ℕ, ◌+◌, ◌%◌, ◌^◌, not, Option, none, some, List, [], Bytes, bytes_ord, nat_ord, lookup, insert,
  remove, length, leb, nat_eq, is_some, unwrap_or, if◌then◌else◌, Result, ok,
}
use howm.Protocol.Manifest.{PeerId, peer_id_len}
use howm.Protocol.Cbor.Values.{Value}
use howm.Protocol.Cbor.Scopes.{CborError}
use howm.Protocol.Cbor.Codec.{Codec}
use howm.Capabilities.Payload.{
  CapabilityContext, cbor_get_int, cbor_get_bytes, decode_payload, with_map,
}
use howm.Capabilities.Relay.{
  Circuit, EndpointCircuit, RelayHandler, circuit_open, circuit_data, circuit_close, circuit_id_key,
  target_peer_key, initiator_peer_key, data_key, close_reason_key, status_key, normal,
  target_unreachable, capacity_exceeded, ttl_expired, accepted, is_expired, other_end, as_initiator,
  as_target, opened, received, closed, fire_event, send_to_peer, max_circuits, ttl_of,
  forwarded_payload, status_payload, data_payload, close_payload,
}

abbrev pub new_circuit : ℕ → ℕ → CapabilityContext → PeerId → Circuit
new_circuit now id ctx target = record {
  circuit_id = id;
  initiator = ctx.peer_id;
  target = target;
  created_at = now;
  bytes_relayed = 0;
  ttl_secs = ttl_of ctx.params;
}

abbrev pub target_end : ℕ → PeerId → PeerId → EndpointCircuit
target_end id relay initiator = record {
  circuit_id = id;
  relay_peer = relay;
  remote_peer = initiator;
  role = as_target;
}

abbrev pub initiator_end : ℕ → PeerId → PeerId → EndpointCircuit
initiator_end id relay target = record {
  circuit_id = id;
  relay_peer = relay;
  remote_peer = target;
  role = as_initiator;
}

-- An acceptance that is for no relayed circuit: for one that this node initiated, or unknown.
abbrev pub accept_pending : CapabilityContext → ℕ → RelayHandler → Option PeerId → RelayHandler
accept_pending ctx id h none = h
accept_pending ctx id h (some target) =
    let h' : RelayHandler = record h {
      pending_initiations = remove id h.pending_initiations;
      endpoint_circuits = insert id (initiator_end id ctx.peer_id target) h.endpoint_circuits;
    } in
    fire_event (opened id target as_initiator) h'

abbrev pub add_bytes : ℕ → Circuit → Circuit
add_bytes n c = record c { bytes_relayed = (c.bytes_relayed + n) % 2 ^ 64 }

abbrev pub deliver_data : ℕ → Bytes → RelayHandler → Option EndpointCircuit → RelayHandler
deliver_data id contents h none = h
deliver_data id contents h (some ep) = fire_event (received id ep.remote_peer contents) h

abbrev pub close_end : ℕ → ℕ → RelayHandler → Option EndpointCircuit → RelayHandler
close_end id reason h none = h
close_end id reason h (some ep) =
    fire_event (closed id reason) (record h { endpoint_circuits = remove id h.endpoint_circuits })

-- The first step of a request: why there can be no circuit, if there cannot. The locks of the circuits and of the
-- channels are given back after it.
abbrev pub refusal : CapabilityContext → PeerId → RelayHandler → Option ℕ
refusal ctx target h =
    if leb (max_circuits ctx.params) (length h.circuits)
    then some capacity_exceeded
    else if not (is_some (lookup target h.peer_senders))
    then some target_unreachable
    else none

module _ (codec : Codec) where
  -- A forwarded OPEN: this node is the target, and accepts.
  unfoldable pub accept_forwarded : CapabilityContext → ℕ → PeerId → RelayHandler → RelayHandler
  unfolding fire_event send_to_peer
  accept_forwarded ctx id initiator h =
      if not (nat_eq (length initiator) peer_id_len)
      then h
      else send_to_peer ctx.peer_id circuit_open (status_payload codec id accepted) (
          fire_event (opened id initiator as_target) (record h {
            endpoint_circuits = insert id (target_end id ctx.peer_id initiator) h.endpoint_circuits;
          }))

  -- An acceptance: the relay forwards it to the initiator.
  abbrev pub forward_status :
      CapabilityContext → ℕ → ℕ → RelayHandler → Option Circuit → RelayHandler
  forward_status ctx id status h none = accept_pending ctx id h (lookup id h.pending_initiations)
  forward_status ctx id status h (some c) =
      send_to_peer c.initiator circuit_open (status_payload codec id status) h

  -- The second step of a request: the circuit is put in, whatever circuits there are by then.
  unfoldable pub put_circuit : ℕ → CapabilityContext → ℕ → PeerId → RelayHandler → RelayHandler
  unfolding send_to_peer
  put_circuit now ctx id target h =
      send_to_peer target circuit_open (forwarded_payload codec id ctx.peer_id)
        (record h { circuits = insert id (new_circuit now id ctx target) h.circuits })

  abbrev pub answer_request :
      ℕ → CapabilityContext → ℕ → PeerId → RelayHandler → Option ℕ → RelayHandler
  answer_request now ctx id target h none = put_circuit now ctx id target h
  answer_request now ctx id target h (some reason) =
      send_to_peer ctx.peer_id circuit_close (close_payload codec id reason) h

  -- A new circuit: this node is the relay. Both steps, if no other task comes between them.
  unfoldable pub request_circuit : ℕ → CapabilityContext → ℕ → PeerId → RelayHandler → RelayHandler
  unfolding send_to_peer put_circuit
  request_circuit now ctx id target h =
      if not (nat_eq (length target) peer_id_len)
      then h
      else answer_request now ctx id target h (refusal ctx target h)

  abbrev pub open_case :
      ℕ → CapabilityContext → ℕ → Bytes → RelayHandler → Option Bytes → Option ℕ → RelayHandler
  open_case now ctx id target h (some initiator) status = accept_forwarded ctx id initiator h
  open_case now ctx id target h none (some status) =
      forward_status ctx id status h (lookup id h.circuits)
  open_case now ctx id target h none none = request_circuit now ctx id target h

  unfoldable pub open_message :
      ℕ → CapabilityContext → RelayHandler → List (Value × Value) → RelayHandler
  unfolding accept_forwarded request_circuit
  open_message now ctx h m =
      open_case now ctx (unwrap_or (cbor_get_int m circuit_id_key) 0)
        (unwrap_or (cbor_get_bytes m target_peer_key) []) h (cbor_get_bytes m initiator_peer_key)
        (cbor_get_int m status_key)

  unfoldable pub handle_open :
      ℕ → CapabilityContext → Bytes → RelayHandler → RelayHandler × Result CborError (Unit {0})
  unfolding decode_payload open_message
  handle_open now ctx payload h = with_map (decode_payload codec payload) h (open_message now ctx h)

  abbrev pub forward_data : ℕ → Bytes → RelayHandler → Option PeerId → RelayHandler
  forward_data id contents h none = h
  forward_data id contents h (some p) =
      send_to_peer p circuit_data (data_payload codec id contents) h

  abbrev pub relay_data :
      ℕ → CapabilityContext → ℕ → Bytes → RelayHandler → Option Circuit → RelayHandler
  relay_data now ctx id contents h none = deliver_data id contents h (lookup id h.endpoint_circuits)
  relay_data now ctx id contents h (some c) =
      if is_expired now c
      then send_to_peer c.target circuit_close (close_payload codec id ttl_expired) (
          send_to_peer c.initiator circuit_close (close_payload codec id ttl_expired)
            (record h { circuits = remove id h.circuits }))
      else forward_data id contents
          (record h { circuits = insert id (add_bytes (length contents) c) h.circuits })
          (other_end ctx.peer_id c)

  unfoldable pub data_message :
      ℕ → CapabilityContext → RelayHandler → List (Value × Value) → RelayHandler
  data_message now ctx h m =
      let id = unwrap_or (cbor_get_int m circuit_id_key) 0 in
      relay_data now ctx id (unwrap_or (cbor_get_bytes m data_key) []) h (lookup id h.circuits)

  unfoldable pub handle_data :
      ℕ → CapabilityContext → Bytes → RelayHandler → RelayHandler × Result CborError (Unit {0})
  unfolding decode_payload data_message
  handle_data now ctx payload h = with_map (decode_payload codec payload) h (data_message now ctx h)

  abbrev pub forward_close : ℕ → ℕ → RelayHandler → Option PeerId → RelayHandler
  forward_close id reason h none = h
  forward_close id reason h (some p) =
      send_to_peer p circuit_close (close_payload codec id reason) h

  abbrev pub relay_close : CapabilityContext → ℕ → ℕ → RelayHandler → Option Circuit → RelayHandler
  relay_close ctx id reason h none = close_end id reason h (lookup id h.endpoint_circuits)
  relay_close ctx id reason h (some c) =
      forward_close id reason (record h { circuits = remove id h.circuits })
        (other_end ctx.peer_id c)

  unfoldable pub close_message :
      CapabilityContext → RelayHandler → List (Value × Value) → RelayHandler
  close_message ctx h m =
      let id = unwrap_or (cbor_get_int m circuit_id_key) 0 in
      relay_close ctx id (unwrap_or (cbor_get_int m close_reason_key) normal) h
        (lookup id h.circuits)

  unfoldable pub handle_close :
      CapabilityContext → Bytes → RelayHandler → RelayHandler × Result CborError (Unit {0})
  unfolding decode_payload close_message
  handle_close ctx payload h = with_map (decode_payload codec payload) h (close_message ctx h)

  -- `on_message`: other numbers are not handled.
  unfoldable pub relay_on_message :
      ℕ → ℕ → CapabilityContext → Bytes → RelayHandler → RelayHandler × Result CborError (Unit {0})
  unfolding handle_open handle_data handle_close
  relay_on_message now msg_type ctx payload h =
      if nat_eq msg_type circuit_open
      then handle_open now ctx payload h
      else if nat_eq msg_type circuit_data
      then handle_data now ctx payload h
      else if nat_eq msg_type circuit_close
      then handle_close ctx payload h
      else (h, ok tt)

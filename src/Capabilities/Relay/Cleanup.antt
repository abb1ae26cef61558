-- ===== src/Capabilities/Relay/Cleanup.antt =====
-- node/p2pcd/src/capabilities/relay.rs: circuits that end by time or with their peer.
use howm.Base.{
  ℕ, Bool, ◌||◌, not, Option, none, some, List, [], ◌∷◌, bytes_ord, nat_ord, ◌==◌, lookup, remove,
  map, filter,
}
use howm.Protocol.Manifest.{PeerId}
use howm.Protocol.Cbor.Codec.{Codec}
use howm.Capabilities.Payload.{CapabilityContext}
use howm.Capabilities.Relay.{
  Circuit, EndpointCircuit, RelayHandler, circuit_close, normal, ttl_expired, is_expired, other_end,
  send_to_peer, close_payload,
}
use howm.Capabilities.Relay.Handlers.{forward_close, close_end}

abbrev pub ends_of : ℕ × Circuit → PeerId × PeerId × ℕ
ends_of (id, c) = (c.initiator, c.target, id)

unfoldable pub reap_expired_circuits : ℕ → RelayHandler → RelayHandler × List (PeerId × PeerId × ℕ)
unfolding is_expired
reap_expired_circuits now h = (
  record h { circuits = filter (λ e. not (is_expired now e.1)) h.circuits },
  map ends_of (filter (λ e. is_expired now e.1) h.circuits),
)

abbrev pub involves : PeerId → ℕ × Circuit → Bool
involves p (id, c) = c.initiator == p || c.target == p

abbrev pub relays : PeerId → ℕ × EndpointCircuit → Bool
relays p (id, ep) = ep.relay_peer == p

-- The loop over the endpoint circuits that go through the peer.
unfoldable pub close_endpoints : List ℕ → RelayHandler → RelayHandler
close_endpoints [] h = h
close_endpoints (id ∷ ids) h =
    close_endpoints ids (close_end id normal h (lookup id h.endpoint_circuits))

module _ (codec : Codec) where
  unfoldable pub notify_reaped : List (PeerId × PeerId × ℕ) → RelayHandler → RelayHandler
  unfolding send_to_peer
  notify_reaped [] h = h
  notify_reaped ((initiator, target, id) ∷ more) h = notify_reaped more (
      send_to_peer target circuit_close (close_payload codec id ttl_expired)
        (send_to_peer initiator circuit_close (close_payload codec id ttl_expired) h))

  unfoldable pub reap_and_notify : ℕ → RelayHandler → RelayHandler
  unfolding reap_expired_circuits notify_reaped
  reap_and_notify now h = let (h', reaped) = reap_expired_circuits now h in notify_reaped reaped h'

  abbrev pub close_relayed : PeerId → ℕ → RelayHandler → Option Circuit → RelayHandler
  close_relayed p id h none = h
  close_relayed p id h (some c) =
      forward_close codec id normal (record h { circuits = remove id h.circuits }) (other_end p c)

  -- The loop over the relayed circuits that involve the peer.
  unfoldable pub close_circuits : PeerId → List ℕ → RelayHandler → RelayHandler
  close_circuits p [] h = h
  close_circuits p (id ∷ ids) h = close_circuits p ids (close_relayed p id h (lookup id h.circuits))

  unfoldable pub relay_on_deactivated : CapabilityContext → RelayHandler → RelayHandler
  unfolding close_circuits close_endpoints
  relay_on_deactivated ctx h =
      let p = ctx.peer_id in
      let h' = close_circuits p (map (λ e. e.0) (filter (involves p) h.circuits)) h in
      let h'' = close_endpoints (map (λ e. e.0) (filter (relays p) h'.endpoint_circuits)) h' in
      record h'' { peer_senders = remove p h''.peer_senders }

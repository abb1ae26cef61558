-- ===== src/Capabilities/Relay/Deactivation.antt =====
-- What a relay has left after the session with a peer.
use howm.Base.{
  ℕ, ◌≡◌, not, inl, inr, none, some, Option-cases, List, [], ◌∷◌, bytes_ord, nat_ord, map, filter,
  IsMap, lookup, remove, remove_each, remove_absent, remove_each-filter, lookup-remove_self, refl,
  ap, sym, ◌∙◌,
}
use howm.Protocol.Manifest.{PeerId}
use howm.Protocol.Cbor.Codec.{Codec}
use howm.Capabilities.Payload.{CapabilityContext}
use howm.Capabilities.Relay.{RelayHandler, fire_event, send_to_peer, other_end, normal}
use howm.Capabilities.Relay.Handlers.{close_end}
use howm.Capabilities.Relay.Cleanup.{
  close_relayed, close_circuits, close_endpoints, relay_on_deactivated, involves, relays,
}

module _ (codec : Codec) where
  close_relayed-circuits :
      (p : PeerId) (id : ℕ) (h : RelayHandler)
      → (close_relayed codec p id h (lookup id h.circuits)).circuits ≡ remove id h.circuits
  unfolding send_to_peer
  close_relayed-circuits p id h = elim (Option-cases (lookup id h.circuits)) [
    | inl e ↦ rw e (sym (remove_absent id h.circuits e))
    | inr (c, e) ↦ elim (Option-cases (other_end p c)) [
      | inl o ↦ rw (e, o) refl
      | inr (q, o) ↦ rw (e, o) refl
    ]
  ]

  close_circuits-circuits :
      (p : PeerId) (ids : List ℕ) (h : RelayHandler)
      → (close_circuits codec p ids h).circuits ≡ remove_each ids h.circuits
  unfolding close_circuits remove_each
  close_circuits-circuits p [] h = refl
  close_circuits-circuits p (id ∷ ids) h =
      close_circuits-circuits p ids (close_relayed codec p id h (lookup id h.circuits))
      ∙ ap (remove_each ids) (close_relayed-circuits p id h)

  close_relayed-endpoint_circuits :
      (p : PeerId) (id : ℕ) (h : RelayHandler)
      → (close_relayed codec p id h (lookup id h.circuits)).endpoint_circuits ≡ h.endpoint_circuits
  unfolding send_to_peer
  close_relayed-endpoint_circuits p id h = elim (Option-cases (lookup id h.circuits)) [
    | inl e ↦ rw e refl
    | inr (c, e) ↦ elim (Option-cases (other_end p c)) [
      | inl o ↦ rw (e, o) refl
      | inr (q, o) ↦ rw (e, o) refl
    ]
  ]

  close_circuits-endpoint_circuits :
      (p : PeerId) (ids : List ℕ) (h : RelayHandler)
      → (close_circuits codec p ids h).endpoint_circuits ≡ h.endpoint_circuits
  unfolding close_circuits
  close_circuits-endpoint_circuits p [] h = refl
  close_circuits-endpoint_circuits p (id ∷ ids) h =
      close_circuits-endpoint_circuits p ids (close_relayed codec p id h (lookup id h.circuits))
      ∙ close_relayed-endpoint_circuits p id h

  close_end-endpoint_circuits :
      (id : ℕ) (h : RelayHandler)
      → (close_end id normal h (lookup id h.endpoint_circuits)).endpoint_circuits
        ≡ remove id h.endpoint_circuits
  unfolding fire_event
  close_end-endpoint_circuits id h = elim (Option-cases (lookup id h.endpoint_circuits)) [
    | inl e ↦ rw e (sym (remove_absent id h.endpoint_circuits e))
    | inr (ep, e) ↦ rw e refl
  ]

  close_endpoints-endpoint_circuits :
      (ids : List ℕ) (h : RelayHandler)
      → (close_endpoints ids h).endpoint_circuits ≡ remove_each ids h.endpoint_circuits
  unfolding close_endpoints remove_each
  close_endpoints-endpoint_circuits [] h = refl
  close_endpoints-endpoint_circuits (id ∷ ids) h =
      close_endpoints-endpoint_circuits ids (close_end id normal h (lookup id h.endpoint_circuits))
      ∙ ap (remove_each ids) (close_end-endpoint_circuits id h)

  close_endpoints-circuits :
      (ids : List ℕ) (h : RelayHandler) → (close_endpoints ids h).circuits ≡ h.circuits
  unfolding close_endpoints fire_event
  close_endpoints-circuits [] h = refl
  close_endpoints-circuits (id ∷ ids) h = elim (Option-cases (lookup id h.endpoint_circuits)) [
    | inl e ↦ rw (e, close_endpoints) (close_endpoints-circuits ids h)
    | inr (ep, e) ↦
        rw (e, close_endpoints) (close_endpoints-circuits ids (close_end id normal h (some ep)))
  ]

  pub relay_on_deactivated-circuits :
      (ctx : CapabilityContext) (h : RelayHandler)
      → IsMap h.circuits
      → (relay_on_deactivated codec ctx h).circuits
        ≡ filter (λ e. not (involves ctx.peer_id e)) h.circuits
  unfolding relay_on_deactivated
  relay_on_deactivated-circuits ctx h s =
      let p = ctx.peer_id in
      let ids = map (λ e. e.0) (filter (involves p) h.circuits) in
      let h' = close_circuits codec p ids h in
      close_endpoints-circuits (map (λ e. e.0) (filter (relays p) h'.endpoint_circuits)) h'
      ∙ close_circuits-circuits p ids h
      ∙ remove_each-filter (involves p) h.circuits s

  -- When a session ends, the handler drops the circuits that have the peer as an end, the ends whose relay it
  -- is, and its channel; it keeps every other circuit, every other end and their order.
  pub relay_on_deactivated_lem :
      (ctx : CapabilityContext) (h : RelayHandler)
      → IsMap h.circuits
      → IsMap h.endpoint_circuits
      → let h' = relay_on_deactivated codec ctx h in
        (h'.circuits ≡ filter (λ e. not (involves ctx.peer_id e)) h.circuits)
        × (h'.endpoint_circuits ≡ filter (λ e. not (relays ctx.peer_id e)) h.endpoint_circuits)
        × (lookup ctx.peer_id h'.peer_senders ≡ none)
  unfolding relay_on_deactivated
  relay_on_deactivated_lem ctx h s t =
      let p = ctx.peer_id in
      let h' = close_circuits codec p (map (λ e. e.0) (filter (involves p) h.circuits)) h in
      let same =
        close_circuits-endpoint_circuits p (map (λ e. e.0) (filter (involves p) h.circuits)) h in
      let ids = map (λ e. e.0) (filter (relays p) h'.endpoint_circuits) in
      let kept : IsMap h'.endpoint_circuits = rw same t in
      (
        relay_on_deactivated-circuits ctx h s,
        close_endpoints-endpoint_circuits ids h'
            ∙ remove_each-filter (relays p) h'.endpoint_circuits kept
            ∙ ap (filter (λ e. not (relays p e))) same,
        lookup-remove_self p (close_endpoints ids h').peer_senders,
      )

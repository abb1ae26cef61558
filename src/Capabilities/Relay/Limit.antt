-- ===== src/Capabilities/Relay/Limit.antt =====
-- How many circuits a relay holds after each of the messages.
use howm.Base.{
  ℕ, ◌≡◌, ◌≤◌, Bool-cases, inl, inr, Option, none, some, Option-cases, Bytes, bytes_ord, nat_ord,
  Map, IsMap, lookup, insert, remove, length, leb, nat_eq, is_some, insert-IsMap, remove-IsMap,
  length-insert-le, length-insert_held, length-remove-le, arith,
}
use howm.Protocol.Manifest.{PeerId, peer_id_len}
use howm.Protocol.Cbor.Codec.{Codec}
use howm.Capabilities.Payload.{CapabilityContext}
use howm.Capabilities.Relay.{
  Circuit, EndpointCircuit, RelayHandler, fire_event, send_to_peer, max_circuits, is_expired,
  other_end,
}
use howm.Capabilities.Relay.Handlers.{
  new_circuit, accept_forwarded, request_circuit, forward_status, open_case, relay_data, add_bytes,
  forward_close, close_end, relay_close,
}
use howm.Capabilities.Relay.Cleanup.{}

-- A number at most once, and not more circuits than the limit.
abbrev pub Within : ℕ → Map ℕ Circuit → Type 0
Within limit m = IsMap m × (length m ≤ limit)

module _ (codec : Codec) (limit : ℕ) where
  pub remove-Within : (id : ℕ) (m : Map ℕ Circuit) → Within limit m → Within limit (remove id m)
  remove-Within id m (s, n) = (remove-IsMap id m s, ground (arith, length-remove-le id m))

  request_circuit-Within :
      (now : ℕ) (ctx : CapabilityContext) (id : ℕ) (t : PeerId) (h : RelayHandler)
      → max_circuits ctx.params ≤ limit
      → Within limit h.circuits
      → Within limit (request_circuit codec now ctx id t h).circuits
  unfolding request_circuit
  request_circuit-Within now ctx id t h bound w =
      elim (Bool-cases (nat_eq (length t) peer_id_len)) [
        | inr e ↦ rw e w
        | inl e ↦ elim (Bool-cases (leb (max_circuits ctx.params) (length h.circuits))) [
          | inl full ↦ rw (e, full) w
          | inr room ↦ elim (Bool-cases (is_some (lookup t h.peer_senders))) [
            | inr out ↦ rw (e, room, out) w
            | inl known ↦
                rw (e, room, known)
                  (
                    insert-IsMap id (new_circuit now id ctx t) h.circuits w.0,
                    ground (arith, length-insert-le id (new_circuit now id ctx t) h.circuits),
                  )
          ]
        ]
      ]

  accept_forwarded-circuits :
      (ctx : CapabilityContext) (id : ℕ) (p : PeerId) (h : RelayHandler)
      → (accept_forwarded codec ctx id p h).circuits ≡ h.circuits
  unfolding accept_forwarded
  accept_forwarded-circuits ctx id p h = ground arith

  forward_status-Within :
      (ctx : CapabilityContext) (id status : ℕ) (h : RelayHandler) (r : Option Circuit)
      → Within limit h.circuits
      → Within limit (forward_status codec ctx id status h r).circuits
  unfolding send_to_peer fire_event
  forward_status-Within ctx id status h (some c) w = w
  forward_status-Within ctx id status h none w =
      elim (Option-cases (lookup id h.pending_initiations)) [ inl e ↦ rw e w | inr (p, e) ↦ rw e w ]

  pub open_case-Within :
      (now : ℕ) (ctx : CapabilityContext) (id : ℕ) (t : Bytes) (h : RelayHandler) (p : Option Bytes)
      (status : Option ℕ)
      → max_circuits ctx.params ≤ limit
      → Within limit h.circuits
      → Within limit (open_case codec now ctx id t h p status).circuits
  open_case-Within now ctx id t h (some p) status bound w =
      rw (accept_forwarded-circuits ctx id p h) w
  open_case-Within now ctx id t h none (some status) bound w =
      forward_status-Within ctx id status h (lookup id h.circuits) w
  open_case-Within now ctx id t h none none bound w = request_circuit-Within now ctx id t h bound w

  pub relay_data-Within :
      (now : ℕ) (ctx : CapabilityContext) (id : ℕ) (contents : Bytes) (h : RelayHandler)
      → Within limit h.circuits
      → Within limit (relay_data codec now ctx id contents h (lookup id h.circuits)).circuits
  unfolding send_to_peer fire_event
  relay_data-Within now ctx id contents h w = elim (Option-cases (lookup id h.circuits)) [
    | inl e ↦ rw e (elim (Option-cases (lookup id h.endpoint_circuits)) [
      | inl o ↦ rw o w
      | inr (ep, o) ↦ rw o w
    ])
    | inr (c, e) ↦
        let same = length-insert_held id (add_bytes (length contents) c) c h.circuits w.0 e in
        let counted : Within limit (insert id (add_bytes (length contents) c) h.circuits) =
          (insert-IsMap id (add_bytes (length contents) c) h.circuits w.0, ground arith) in
        elim (Bool-cases (is_expired now c)) [
          | inl late ↦ rw (e, late) (remove-Within id h.circuits w)
          | inr alive ↦ elim (Option-cases (other_end ctx.peer_id c)) [
            | inl o ↦ rw (e, alive, o) counted
            | inr (p, o) ↦ rw (e, alive, o) counted
          ]
        ]
  ]

  pub forward_close-Within :
      (id reason : ℕ) (h : RelayHandler) (p : Option PeerId)
      → Within limit h.circuits
      → Within limit (forward_close codec id reason h p).circuits
  unfolding send_to_peer
  forward_close-Within id reason h none w = w
  forward_close-Within id reason h (some p) w = w

  pub close_end-Within :
      (id reason : ℕ) (h : RelayHandler) (ep : Option EndpointCircuit)
      → Within limit h.circuits
      → Within limit (close_end id reason h ep).circuits
  unfolding fire_event
  close_end-Within id reason h none w = w
  close_end-Within id reason h (some ep) w = w

  pub relay_close-Within :
      (ctx : CapabilityContext) (id reason : ℕ) (h : RelayHandler) (r : Option Circuit)
      → Within limit h.circuits
      → Within limit (relay_close codec ctx id reason h r).circuits
  relay_close-Within ctx id reason h none w =
      close_end-Within id reason h (lookup id h.endpoint_circuits) w
  relay_close-Within ctx id reason h (some c) w =
      forward_close-Within id reason (record h { circuits = remove id h.circuits })
        (other_end ctx.peer_id c) (remove-Within id h.circuits w)

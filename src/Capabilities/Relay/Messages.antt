-- ===== src/Capabilities/Relay/Messages.antt =====
-- What the handlers do with the payloads that the handlers write.
use howm.Base.{ℕ, ◌≡◌, refl, [], ◌∷◌, Bytes, ok, lookup, nat_ord}
use howm.Protocol.Manifest.{PeerId}
use howm.Protocol.Cbor.Values.{bytes, int_value, map_get}
use howm.Protocol.Cbor.Codec.{Codec}
use howm.Capabilities.Payload.{CapabilityContext, decode_payload-cbor_encode_map}
use howm.Capabilities.Relay.{
  RelayHandler, circuit_id_key, target_peer_key, initiator_peer_key, data_key, close_reason_key,
  status_key, open_payload, forwarded_payload, status_payload, data_payload, close_payload,
}
use howm.Capabilities.Relay.Handlers.{
  handle_open, handle_data, handle_close, open_message, data_message, close_message,
  accept_forwarded, request_circuit, forward_status, relay_data, relay_close,
}

module _ (codec : Codec) (now : ℕ) (ctx : CapabilityContext) (id : ℕ) (h : RelayHandler) where
  pub handle_open-open_payload :
      (target : PeerId)
      → handle_open codec now ctx (open_payload codec id target) h
        ≡ (request_circuit codec now ctx id target h, ok tt)
  unfolding handle_open open_message map_get
  handle_open-open_payload target =
      rw
        (decode_payload-cbor_encode_map codec
          ((circuit_id_key, int_value id) ∷ (target_peer_key, bytes target) ∷ []))
        refl

  pub handle_open-forwarded_payload :
      (initiator : PeerId)
      → handle_open codec now ctx (forwarded_payload codec id initiator) h
        ≡ (accept_forwarded codec ctx id initiator h, ok tt)
  unfolding handle_open open_message map_get
  handle_open-forwarded_payload initiator =
      rw
        (decode_payload-cbor_encode_map codec
          ((circuit_id_key, int_value id) ∷ (initiator_peer_key, bytes initiator) ∷ []))
        refl

  pub handle_open-status_payload :
      (status : ℕ)
      → handle_open codec now ctx (status_payload codec id status) h
        ≡ (forward_status codec ctx id status h (lookup id h.circuits), ok tt)
  unfolding handle_open open_message map_get
  handle_open-status_payload status =
      rw
        (decode_payload-cbor_encode_map codec
          ((circuit_id_key, int_value id) ∷ (status_key, int_value status) ∷ []))
        refl

  pub handle_data-data_payload :
      (contents : Bytes)
      → handle_data codec now ctx (data_payload codec id contents) h
        ≡ (relay_data codec now ctx id contents h (lookup id h.circuits), ok tt)
  unfolding handle_data data_message map_get
  handle_data-data_payload contents =
      rw
        (decode_payload-cbor_encode_map codec
          ((circuit_id_key, int_value id) ∷ (data_key, bytes contents) ∷ []))
        refl

  pub handle_close-close_payload :
      (reason : ℕ)
      → handle_close codec ctx (close_payload codec id reason) h
        ≡ (relay_close codec ctx id reason h (lookup id h.circuits), ok tt)
  unfolding handle_close close_message map_get
  handle_close-close_payload reason =
      rw
        (decode_payload-cbor_encode_map codec
          ((circuit_id_key, int_value id) ∷ (close_reason_key, int_value reason) ∷ []))
        refl

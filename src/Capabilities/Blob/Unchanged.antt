-- ===== src/Capabilities/Blob/Unchanged.antt =====
-- What sending leaves of the store.
use howm.Base.{
  ℕ, zero, suc, ◌+◌, ◌-◌, ◌*◌, ◌/◌, ◌%◌, ◌^◌, ◌≡◌, refl, ◌∙◌, Bool-cases, inl, inr, Option, none,
  some, Option-cases, List, [], ◌∷◌, Bytes, bytes_ord, nat_ord, lookup, insert, ltb, nat_eq, length,
  if◌then◌else◌, filter_map, unwrap_or,
}
use howm.Protocol.Manifest.{PeerId}
use howm.Protocol.Cbor.Values.{Value, key_u64}
use howm.Protocol.Cbor.Codec.{Codec}
use howm.Capabilities.Payload.{CapabilityContext, cbor_get_int, cbor_get_bytes, cbor_get_array}
use howm.Capabilities.BlobStore.{has, size, read_chunk}
use howm.Capabilities.Blob.{
  OutboundTransfer, BlobHandler, emit_transfer_event, blob_send_msg, blob_offer, chunk_size_of,
  hash_len, transfer_id_key, blob_hash_key, offset_key, missing_chunks_key, ack_status_key,
  complete, retransmit, refused, div_ceil,
}
use howm.Capabilities.Blob.Sending.{
  new_outbound, offer_payload, send_one_chunk, send_chunks, send_blob, req_message, resend,
  resend_found, ack_message,
}
use howm.Capabilities.Blob.Receiving.{}

module _ (codec : Codec) (most : ℕ) where
  pub send_one_chunk-store :
      (p : PeerId) (id : ℕ) (hash : Bytes) (i chunk : ℕ) (h : BlobHandler)
      → (send_one_chunk codec most p id hash i chunk h).store ≡ h.store
  unfolding send_one_chunk blob_send_msg
  send_one_chunk-store p id hash i chunk h =
      elim (Option-cases (read_chunk most hash (i * chunk % 2 ^ 64) chunk h.store)) [
        | inl e ↦ rw e refl
        | inr (b, e) ↦ rw e refl
      ]

  send_chunks-store :
      (p : PeerId) (id : ℕ) (hash : Bytes) (chunk n i : ℕ) (h : BlobHandler)
      → (send_chunks codec most p id hash chunk n i h).store ≡ h.store
  unfolding send_chunks
  send_chunks-store p id hash chunk zero i h = refl
  send_chunks-store p id hash chunk (suc n) i h =
      send_chunks-store p id hash chunk n (i + 1) (send_one_chunk codec most p id hash i chunk h)
      ∙ send_one_chunk-store p id hash i chunk h

  send_blob-store :
      (now : ℕ) (ctx : CapabilityContext) (id : ℕ) (hash : Bytes) (offset : ℕ) (h : BlobHandler)
      → (send_blob codec most now ctx id hash offset h).store ≡ h.store
  unfolding send_blob blob_send_msg
  send_blob-store now ctx id hash offset h =
      let total = unwrap_or (size hash h.store) 0 in
      let chunk = chunk_size_of ctx.params in
      let begin = if ltb 0 offset then offset / chunk else 0 in
      let offered =
        blob_send_msg ctx.peer_id blob_offer (offer_payload codec id hash total chunk) h in
      send_chunks-store ctx.peer_id id hash chunk (div_ceil total chunk - begin) begin
        (record offered {
          outbound = insert id (new_outbound now id ctx.peer_id hash total chunk) offered.outbound;
        })

  pub req_message-store :
      (now : ℕ) (ctx : CapabilityContext) (h : BlobHandler) (m : List (Value × Value))
      → (req_message codec most now ctx h m).0.store ≡ h.store
  unfolding req_message emit_transfer_event blob_send_msg
  req_message-store now ctx h m =
      let hash = unwrap_or (cbor_get_bytes m blob_hash_key) [] in
      elim (Bool-cases (nat_eq (length hash) hash_len)) [
        | inr e ↦ rw e refl
        | inl e ↦ elim (Bool-cases (has hash h.store)) [
          | inr k ↦ rw (e, k) refl
          | inl k ↦ elim (Bool-cases (nat_eq (chunk_size_of ctx.params) 0)) [
            | inl z ↦ rw (e, k, z) refl
            | inr z ↦
                rw (e, k, z)
                  (send_blob-store now ctx (unwrap_or (cbor_get_int m transfer_id_key) 0) hash
                    (unwrap_or (cbor_get_int m offset_key) 0) h)
          ]
        ]
      ]

  resend-store :
      (p : PeerId) (id : ℕ) (t : OutboundTransfer) (is : List ℕ) (h : BlobHandler)
      → (resend codec most p id t is h).store ≡ h.store
  unfolding resend
  resend-store p id t [] h = refl
  resend-store p id t (i ∷ is) h = elim (Bool-cases (ltb i t.chunk_count)) [
    | inl e ↦
        rw (resend, e)
          (resend-store p id t is (send_one_chunk codec most p id t.blob_hash i t.chunk_size h)
            ∙ send_one_chunk-store p id t.blob_hash i t.chunk_size h)
    | inr e ↦ rw (resend, e) (resend-store p id t is h)
  ]

  resend_found-store :
      (p : PeerId) (id : ℕ) (is : List ℕ) (h : BlobHandler) (t : Option OutboundTransfer)
      → (resend_found codec most p id is h t).store ≡ h.store
  resend_found-store p id is h none = refl
  resend_found-store p id is h (some t) = resend-store p id t is h

  pub ack_message-store :
      (ctx : CapabilityContext) (h : BlobHandler) (m : List (Value × Value))
      → (ack_message codec most ctx h m).store ≡ h.store
  unfolding ack_message
  ack_message-store ctx h m =
      let id = unwrap_or (cbor_get_int m transfer_id_key) 0 in
      let status = unwrap_or (cbor_get_int m ack_status_key) 0 in
      let missing = filter_map key_u64 (unwrap_or (cbor_get_array m missing_chunks_key) []) in
      elim (Bool-cases (nat_eq status complete)) [
        | inl e ↦ rw e refl
        | inr e ↦ elim (Bool-cases (nat_eq status retransmit)) [
          | inl k ↦ rw (e, k) (resend_found-store ctx.peer_id id missing h (lookup id h.outbound))
          | inr k ↦ elim (Bool-cases (nat_eq status refused)) [
            | inl z ↦ rw (e, k, z) refl
            | inr z ↦ rw (e, k, z) refl
          ]
        ]
      ]

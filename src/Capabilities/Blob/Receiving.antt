-- ===== src/Capabilities/Blob/Receiving.antt =====
-- What the consumer of a blob does: the handlers of OFFER and CHUNK.
use howm.Base.{
  ℕ, suc, zero, ◌+◌, true, false, not, Option, none, some, List, [], ◌∷◌, Bytes, bytes_ord, nat_ord,
  lookup, insert, remove, map, length, leb, ltb, nat_eq, unwrap_or, if◌then◌else◌, Result, ok, err,
}
use howm.Protocol.Manifest.{PeerId}
use howm.Protocol.Cbor.Values.{Value, array, values_of, int_value}
use howm.Protocol.Cbor.Scopes.{CborError}
use howm.Protocol.Cbor.Codec.{Codec}
use howm.Capabilities.Payload.{
  CapabilityContext, cbor_encode_map, cbor_get_int, cbor_get_bytes, decode_payload,
}
use howm.Capabilities.BlobStore.{BlobStore, StoreError, begin_write, write, finalize}
use howm.Capabilities.Blob.{
  InboundTransfer, BlobHandler, blob_req, blob_offer, blob_chunk, blob_ack, transfer_id_key,
  blob_hash_key, total_size_key, chunk_size_key, chunk_count_key, chunk_index_key, blob_data_key,
  ack_status_key, missing_chunks_key, complete, retransmit, refused, hash_len,
  max_retransmit_attempts, completed, failed, too_many_retries, is_complete, assembled_data,
  emit_transfer_event, blob_send_msg, max_bytes, default_chunk_size,
}
use howm.Capabilities.Blob.Sending.{BlobError, bad_payload, ack_payload, req_message, ack_message}

-- Rust's `vec![x; n]`, and the write of one entry of a vector that is long enough.
abbrev pub repeated {ℓ} : {A : Type ℓ} → A → ℕ → List A
repeated x zero = []
repeated x (suc n) = x ∷ repeated x n

abbrev pub set_at {ℓ} : {A : Type ℓ} → ℕ → A → List A → List A
set_at i x [] = []
set_at zero x (y ∷ ys) = x ∷ ys
set_at (suc i) x (y ∷ ys) = y ∷ set_at i x ys

abbrev pub range : ℕ → ℕ → List ℕ
range i zero = []
range i (suc n) = i ∷ range (i + 1) n

abbrev pub new_inbound : ℕ → ℕ → PeerId → Bytes → ℕ → ℕ → ℕ → InboundTransfer
new_inbound now id p hash total chunk count = record {
  transfer_id = id;
  peer_id = p;
  blob_hash = hash;
  total_size = total;
  chunk_size = chunk;
  chunk_count = count;
  received = repeated false count;
  chunks = repeated none count;
  started_at = now;
  retransmit_count = 0;
}

abbrev pub put_chunk : ℕ → Bytes → InboundTransfer → InboundTransfer
put_chunk i contents t = record t {
  chunks = set_at i (some contents) t.chunks;
  received = set_at i true t.received;
}

-- All is to come again.
abbrev pub reset : InboundTransfer → InboundTransfer
reset t = record t {
  received = map (λ r. false) t.received;
  chunks = map (λ c. none) t.chunks;
  retransmit_count = t.retransmit_count + 1;
}

-- Nothing changes where the payload is no map.
abbrev pub with_payload :
    Result CborError (List (Value × Value))
    → BlobHandler
    → (List (Value × Value) → BlobHandler × Result BlobError (Unit {0}))
    → BlobHandler × Result BlobError (Unit {0})
with_payload (err e) h f = (h, err (bad_payload e))
with_payload (ok m) h f = f m

module _ (codec : Codec) where
  abbrev pub retransmit_payload : ℕ → ℕ → Bytes
  retransmit_payload id count = cbor_encode_map codec (
      (transfer_id_key, int_value id)
      ∷ (ack_status_key, int_value retransmit)
      ∷ (missing_chunks_key, array (values_of (map int_value (range 0 count))))
      ∷ [])

  unfoldable pub offer_message :
      ℕ → CapabilityContext → BlobHandler → List (Value × Value) → BlobHandler
  unfolding blob_send_msg
  offer_message now ctx h m =
      let id = unwrap_or (cbor_get_int m transfer_id_key) 0 in
      let hash = unwrap_or (cbor_get_bytes m blob_hash_key) [] in
      let total = unwrap_or (cbor_get_int m total_size_key) 0 in
      let chunk = unwrap_or (cbor_get_int m chunk_size_key) default_chunk_size in
      let count = unwrap_or (cbor_get_int m chunk_count_key) 0 in
      if ltb (max_bytes ctx.params) total
      then blob_send_msg ctx.peer_id blob_ack (ack_payload codec id refused) h
      else if not (nat_eq (length hash) hash_len)
      then h
      else record h {
        inbound = insert id (new_inbound now id ctx.peer_id hash total chunk count) h.inbound;
      }

  -- The blob is not the one that was announced.
  abbrev pub retry : PeerId → ℕ → InboundTransfer → BlobHandler → BlobHandler
  retry p id t h =
      if ltb max_retransmit_attempts (t.retransmit_count + 1)
      then emit_transfer_event id t.blob_hash failed 0 (some too_many_retries)
          (record h { inbound = remove id h.inbound })
      else blob_send_msg p blob_ack (retransmit_payload id t.chunk_count)
          (record h { inbound = insert id (reset t) h.inbound })

  abbrev pub finish :
      PeerId → ℕ → InboundTransfer → BlobHandler → BlobStore × Result StoreError ℕ → BlobHandler
  finish p id t h (s, ok n) =
      let told = emit_transfer_event id t.blob_hash completed n none (record h { store = s }) in
      let acked = blob_send_msg p blob_ack (ack_payload codec id complete) told in
      record acked { inbound = remove id acked.inbound }
  finish p id t h (s, err e) = retry p id t (record h { store = s })

  abbrev pub take_chunk :
      CapabilityContext → ℕ → ℕ → Bytes → BlobHandler → Option InboundTransfer → BlobHandler
  take_chunk ctx id i contents h none = h
  take_chunk ctx id i contents h (some t) =
      let t' = put_chunk i contents t in
      let h' : BlobHandler = record h { inbound = insert id t' h.inbound } in
      if leb (length t.chunks) i
      then h
      else if is_complete t'
      then finish ctx.peer_id id t' h'
          (finalize codec (write (assembled_data t') (begin_write t.blob_hash, h.store)))
      else h'

  unfoldable pub chunk_message :
      CapabilityContext → BlobHandler → List (Value × Value) → BlobHandler
  unfolding emit_transfer_event blob_send_msg finalize write
  chunk_message ctx h m =
      let id = unwrap_or (cbor_get_int m transfer_id_key) 0 in
      take_chunk ctx id (unwrap_or (cbor_get_int m chunk_index_key) 0)
        (unwrap_or (cbor_get_bytes m blob_data_key) []) h (lookup id h.inbound)

  -- `on_message`: other numbers are not handled.
  unfoldable pub blob_on_message :
      ℕ
      → ℕ
      → ℕ
      → CapabilityContext
      → Bytes
      → BlobHandler
      → BlobHandler × Result BlobError (Unit {0})
  unfolding decode_payload req_message offer_message chunk_message ack_message
  blob_on_message most now msg_type ctx payload h =
      let read = decode_payload codec payload in
      if nat_eq msg_type blob_req
      then with_payload read h (req_message codec most now ctx h)
      else if nat_eq msg_type blob_offer
      then with_payload read h (λ m. (offer_message now ctx h m, ok tt))
      else if nat_eq msg_type blob_chunk
      then with_payload read h (λ m. (chunk_message ctx h m, ok tt))
      else if nat_eq msg_type blob_ack
      then with_payload read h (λ m. (ack_message codec most ctx h m, ok tt))
      else (h, ok tt)

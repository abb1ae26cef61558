-- ===== src/Capabilities/Blob/Sending.antt =====
-- What the provider of a blob does: the handlers of REQ and ACK.

use howm.Base.{
  ℕ, suc, zero, ◌+◌, ◌-◌, ◌*◌, ◌/◌, ◌%◌, ◌^◌, not, Option, none, some, List, [], ◌∷◌, Bytes,
  bytes_ord, nat_ord, lookup, insert, remove, length, ltb, nat_eq, filter_map, unwrap_or,
  if◌then◌else◌, Result, ok, err,
}
use howm.Protocol.Manifest.{PeerId}
use howm.Protocol.Cbor.Values.{Value, bytes, int_value, key_u64}
use howm.Protocol.Cbor.Scopes.{CborError}
use howm.Protocol.Cbor.Codec.{Codec}
use howm.Capabilities.Payload.{
  CapabilityContext, cbor_encode_map, cbor_get_int, cbor_get_bytes, cbor_get_array,
}
use howm.Capabilities.BlobStore.{has, size, read_chunk}
use howm.Capabilities.Blob.{
  OutboundTransfer, BlobHandler, blob_offer, blob_chunk, blob_ack, transfer_id_key, blob_hash_key,
  offset_key, total_size_key, chunk_size_key, chunk_count_key, chunk_index_key, blob_data_key,
  ack_status_key, missing_chunks_key, complete, retransmit, refused, not_found, hash_len, failed,
  not_on_provider, emit_transfer_event, blob_send_msg, chunk_size_of, div_ceil,
}

-- A handler that panics, by a division by 0, ends there.
pub data BlobError : Type 0 where
  bad_payload : CborError → BlobError
  panicked : BlobError

abbrev pub new_outbound : ℕ → ℕ → PeerId → Bytes → ℕ → ℕ → OutboundTransfer
new_outbound now id p hash total chunk = record {
  transfer_id = id;
  peer_id = p;
  blob_hash = hash;
  total_size = total;
  chunk_size = chunk;
  chunk_count = div_ceil total chunk;
  started_at = now;
}

module _ (codec : Codec) where
  abbrev pub ack_payload : ℕ → ℕ → Bytes
  ack_payload id status =
      cbor_encode_map codec
        ((transfer_id_key, int_value id) ∷ (ack_status_key, int_value status) ∷ [])

  abbrev pub offer_payload : ℕ → Bytes → ℕ → ℕ → Bytes
  offer_payload id hash total chunk = cbor_encode_map codec (
      (transfer_id_key, int_value id)
      ∷ (blob_hash_key, bytes hash)
      ∷ (total_size_key, int_value total)
      ∷ (chunk_size_key, int_value chunk)
      ∷ (chunk_count_key, int_value (div_ceil total chunk))
      ∷ [])

  abbrev pub chunk_payload : ℕ → ℕ → Bytes → Bytes
  chunk_payload id i contents = cbor_encode_map codec (
      (transfer_id_key, int_value id)
      ∷ (chunk_index_key, int_value i)
      ∷ (blob_data_key, bytes contents)
      ∷ [])

  abbrev pub send_read : PeerId → ℕ → ℕ → BlobHandler → Option Bytes → BlobHandler
  send_read p id i h none = h
  send_read p id i h (some contents) = blob_send_msg p blob_chunk (chunk_payload id i contents) h

  module _ (most : ℕ) where
    unfoldable pub send_one_chunk : PeerId → ℕ → Bytes → ℕ → ℕ → BlobHandler → BlobHandler
    unfolding blob_send_msg read_chunk
    send_one_chunk p id hash i chunk h =
        send_read p id i h (read_chunk most hash (i * chunk % 2 ^ 64) chunk h.store)

    -- The `n` chunks from `i` on.
    unfoldable pub send_chunks : PeerId → ℕ → Bytes → ℕ → ℕ → ℕ → BlobHandler → BlobHandler
    unfolding send_one_chunk
    send_chunks p id hash chunk zero i h = h
    send_chunks p id hash chunk (suc n) i h =
        send_chunks p id hash chunk n (i + 1) (send_one_chunk p id hash i chunk h)

    unfoldable pub send_blob : ℕ → CapabilityContext → ℕ → Bytes → ℕ → BlobHandler → BlobHandler
    unfolding send_chunks blob_send_msg
    send_blob now ctx id hash offset h =
        let p = ctx.peer_id in
        let total = unwrap_or (size hash h.store) 0 in
        let chunk = chunk_size_of ctx.params in
        let begin = if ltb 0 offset then offset / chunk else 0 in
        let offered = blob_send_msg p blob_offer (offer_payload id hash total chunk) h in
        send_chunks p id hash chunk (div_ceil total chunk - begin) begin (record offered {
          outbound = insert id (new_outbound now id p hash total chunk) offered.outbound;
        })

    unfoldable pub req_message :
        ℕ
        → CapabilityContext
        → BlobHandler
        → List (Value × Value)
        → BlobHandler × Result BlobError (Unit {0})
    unfolding send_blob emit_transfer_event
    req_message now ctx h m =
        let id = unwrap_or (cbor_get_int m transfer_id_key) 0 in
        let hash = unwrap_or (cbor_get_bytes m blob_hash_key) [] in
        let offset = unwrap_or (cbor_get_int m offset_key) 0 in
        if not (nat_eq (length hash) hash_len)
        then (h, ok tt)
        else if not (has hash h.store)
        then (
          emit_transfer_event id hash failed 0 (some not_on_provider)
              (blob_send_msg ctx.peer_id blob_ack (ack_payload id not_found) h),
          ok tt,
        )
        else if nat_eq (chunk_size_of ctx.params) 0
        then (h, err panicked)
        else (send_blob now ctx id hash offset h, ok tt)

    -- The chunks that the peer misses and that there are.
    unfoldable pub resend : PeerId → ℕ → OutboundTransfer → List ℕ → BlobHandler → BlobHandler
    unfolding send_one_chunk
    resend p id t [] h = h
    resend p id t (i ∷ is) h =
        resend p id t is
          (if ltb i t.chunk_count then send_one_chunk p id t.blob_hash i t.chunk_size h else h)

    abbrev pub resend_found :
        PeerId → ℕ → List ℕ → BlobHandler → Option OutboundTransfer → BlobHandler
    resend_found p id is h none = h
    resend_found p id is h (some t) = resend p id t is h

    unfoldable pub ack_message :
        CapabilityContext → BlobHandler → List (Value × Value) → BlobHandler
    unfolding resend
    ack_message ctx h m =
        let id = unwrap_or (cbor_get_int m transfer_id_key) 0 in
        let status = unwrap_or (cbor_get_int m ack_status_key) 0 in
        let missing = filter_map key_u64 (unwrap_or (cbor_get_array m missing_chunks_key) []) in
        if nat_eq status complete
        then record h { outbound = remove id h.outbound }
        else if nat_eq status retransmit
        then resend_found ctx.peer_id id missing h (lookup id h.outbound)
        else if nat_eq status refused
        then record h { outbound = remove id h.outbound }
        else h

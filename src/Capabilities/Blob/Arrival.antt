-- ===== src/Capabilities/Blob/Arrival.antt =====
-- A blob whose chunks come in one after the other.
use howm.Base.{
  ℕ, ◌%◌, ◌^◌, suc, ◌+◌, ◌≡◌, ◌≤◌, refl, ap, ◌∙◌, sym, true, false, none, some, List, [], ◌∷◌, ◌++◌,
  append_assoc, Bytes, bytes_ord, nat_ord, ==_self, lookup, insert, lookup-insert_self,
  lookup-remove_self, ltb, nat_eq, length, length-append, arith,
}
use howm.Protocol.Cbor.Values.{bytes, int_value, map_get}
use howm.Protocol.Cbor.Codec.{Codec}
use howm.Capabilities.Payload.{
  CapabilityContext, decode_payload-cbor_encode_map, make_capability_msg,
}
use howm.Capabilities.Senders.{appended, lookup-send_msg_self}
use howm.Capabilities.BlobStore.Writing.{AtRest, Holds, put_blob-right, put_blob-Holds}
use howm.Capabilities.Blob.{
  InboundTransfer, BlobHandler, TransferEvent, emit_transfer_event, blob_send_msg, blob_offer,
  blob_chunk, blob_ack, transfer_id_key, blob_hash_key, total_size_key, chunk_size_key,
  chunk_count_key, hash_len, max_bytes, div_ceil, chunk_index_key, blob_data_key, complete,
  completed,
}
use howm.Capabilities.Blob.Sending.{chunk_payload, offer_payload, ack_payload}
use howm.Capabilities.Blob.Receiving.{
  new_inbound, put_chunk, take_chunk, offer_message, chunk_message, blob_on_message,
}
use howm.Capabilities.Blob.Progress.{
  concat, progress, put_chunk-progress, length-progress, is_complete-more, is_complete-last,
  assembled_data-last,
}

-- What the consumer broadcasts of a blob that is complete.
abbrev pub done_event : ℕ → Bytes → ℕ → TransferEvent
done_event n hash len = record {
  transfer_id = n;
  blob_hash = hash;
  status = completed;
  size = len;
  error = none;
}

module _ (codec : Codec) (most : ℕ) where
  blob_on_message-chunk_payload :
      (now : ℕ) (ctx : CapabilityContext) (id i : ℕ) (contents : Bytes) (h : BlobHandler)
      → (blob_on_message codec most now blob_chunk ctx (chunk_payload codec id i contents) h).0
        ≡ take_chunk codec ctx id i contents h (lookup id h.inbound)
  unfolding blob_on_message chunk_message map_get
  blob_on_message-chunk_payload now ctx id i contents h =
      rw
        (decode_payload-cbor_encode_map codec (
          (transfer_id_key, int_value id)
          ∷ (chunk_index_key, int_value i)
          ∷ (blob_data_key, bytes contents)
          ∷ []))
        refl

  -- The chunks' messages from the `i`th on, handled one after the other.
  abbrev pub receive_chunks : ℕ → CapabilityContext → ℕ → ℕ → List Bytes → BlobHandler → BlobHandler
  receive_chunks now ctx id i [] h = h
  receive_chunks now ctx id i (b ∷ bs) h =
      receive_chunks now ctx id (i + 1) bs
        (blob_on_message codec most now blob_chunk ctx (chunk_payload codec id i b) h).0

  one_more :
      (now : ℕ) (ctx : CapabilityContext) (id : ℕ) (t : InboundTransfer) (done : List Bytes)
      (b : Bytes) (n : ℕ) (h : BlobHandler)
      → lookup id h.inbound ≡ some (progress t done (suc (suc n)))
      → (blob_on_message codec most now blob_chunk ctx (chunk_payload codec id (length done) b) h).0
        ≡ record h { inbound = insert id (progress t (done ++ b ∷ []) (suc n)) h.inbound }
  one_more now ctx id t done b n h held =
      rw
        (
          blob_on_message-chunk_payload now ctx id (length done) b h,
          held,
          length-progress done (suc n),
          is_complete-more t done b n,
          put_chunk-progress t done b (suc n),
        )
        refl

  -- What is left when all chunks are there: the blob can be read by its hash, and each other as before.
  abbrev pub Arrived : CapabilityContext → ℕ → Bytes → BlobHandler → BlobHandler → Type 0
  Arrived ctx id contents h h' =
      let hash = codec.sha256 contents in
      Holds hash contents h.store h'.store
      × (lookup id h'.inbound ≡ none)
      × (h'.events ≡ h.events ++ done_event id hash (length contents % 2 ^ 64) ∷ [])
      × (lookup ctx.peer_id h'.peer_senders
          ≡ appended (make_capability_msg blob_ack (ack_payload codec id complete))
              (lookup ctx.peer_id h.peer_senders))

  last_one :
      (now : ℕ) (ctx : CapabilityContext) (id : ℕ) (t : InboundTransfer) (done : List Bytes)
      (b : Bytes) (h : BlobHandler)
      → lookup id h.inbound ≡ some (progress t done 1)
      → t.blob_hash ≡ codec.sha256 (concat (done ++ b ∷ []))
      → AtRest h.store
      → Arrived ctx id
          (concat (done ++ b ∷ []))
          h
          (blob_on_message codec most now blob_chunk ctx
            (chunk_payload codec id (length done) b)
            h).0
  unfolding emit_transfer_event blob_send_msg
  last_one now ctx id t done b h held same rest =
      let contents = concat (done ++ b ∷ []) in
      let t' =
        put_chunk (length done) b
          (record (progress t done 1) { blob_hash = codec.sha256 contents }) in
      let msg = make_capability_msg blob_ack (ack_payload codec id complete) in
      rw
        (
          blob_on_message-chunk_payload now ctx id (length done) b h,
          held,
          length-progress done 0,
          is_complete-last t done b,
          assembled_data-last t done b,
          same,
          put_blob-right codec (codec.sha256 contents) contents h.store rest.0
              (==_self (codec.sha256 contents)),
        )
        (
          put_blob-Holds codec contents h.store rest,
          lookup-remove_self id (insert id t' h.inbound),
          refl,
          lookup-send_msg_self ctx.peer_id msg h.peer_senders,
        )

  -- The chunks that `done` has not.
  rest_arrives :
      (now : ℕ) (ctx : CapabilityContext) (id : ℕ) (t : InboundTransfer) (done : List Bytes)
      (b : Bytes) (bs : List Bytes) (h : BlobHandler)
      → lookup id h.inbound ≡ some (progress t done (suc (length bs)))
      → t.blob_hash ≡ codec.sha256 (concat (done ++ b ∷ bs))
      → AtRest h.store
      → Arrived ctx id
          (concat (done ++ b ∷ bs))
          h
          (receive_chunks now ctx id (length done) (b ∷ bs) h)
  rest_arrives now ctx id t done b [] h held same alone =
      last_one now ctx id t done b h held same alone
  rest_arrives now ctx id t done b (c ∷ bs) h held same alone =
      let now_held = progress t (done ++ b ∷ []) (suc (length bs)) in
      let h1 : BlobHandler = record h { inbound = insert id now_held h.inbound } in
      let regroup = append_assoc done (b ∷ []) (c ∷ bs) in
      let shifted : length (done ++ b ∷ []) ≡ length done + 1 = length-append done (b ∷ []) in
      let rest : Arrived ctx id (concat ((done ++ b ∷ []) ++ c ∷ bs)) h1
          (receive_chunks now ctx id (length (done ++ b ∷ [])) (c ∷ bs) h1) =
        rest_arrives now ctx id t (done ++ b ∷ []) c bs h1
          (lookup-insert_self id now_held h.inbound)
          (same ∙ ap (λ x. codec.sha256 (concat x)) (sym regroup)) alone in
      rw (receive_chunks, one_more now ctx id t done b (length bs) h held)
        (rw (← regroup, ← shifted) rest)

  blob_on_message-offer_payload :
      (now : ℕ) (ctx : CapabilityContext) (id : ℕ) (hash : Bytes) (total chunk : ℕ)
      (h : BlobHandler)
      → total ≤ max_bytes ctx.params
      → length hash ≡ hash_len
      → (blob_on_message codec most now blob_offer ctx
          (offer_payload codec id hash total chunk)
          h).0
        ≡ record h {
          inbound =
              insert id
                (new_inbound now id ctx.peer_id hash total chunk (div_ceil total chunk))
                h.inbound;
        }
  unfolding blob_on_message offer_message map_get
  blob_on_message-offer_payload now ctx id hash total chunk h fits sized =
      rw
        (
          decode_payload-cbor_encode_map codec (
              (transfer_id_key, int_value id)
              ∷ (blob_hash_key, bytes hash)
              ∷ (total_size_key, int_value total)
              ∷ (chunk_size_key, int_value chunk)
              ∷ (chunk_count_key, int_value (div_ceil total chunk))
              ∷ []),
          small,
          right_size,
        )
        refl
    where
      small : ltb (max_bytes ctx.params) total ≡ false
      small = ground arith

      right_size : nat_eq (length hash) hash_len ≡ true
      right_size = ground arith

  -- A consumer in whose store no writer is at work, and that handles the OFFER of a blob that is not empty and not larger than its limit, and then its
  -- chunks, as many as announced and in their order, has the blob, and no other change, in its store, answers
  -- COMPLETE to the provider, broadcasts the end of the transfer, and has forgotten the transfer.
  pub blob_arrives :
      (now later : ℕ) (ctx : CapabilityContext) (id total chunk : ℕ) (b : Bytes) (bs : List Bytes)
      (h : BlobHandler)
      → total ≤ max_bytes ctx.params
      → length (codec.sha256 (concat (b ∷ bs))) ≡ hash_len
      → div_ceil total chunk ≡ suc (length bs)
      → AtRest h.store
      → let offer = offer_payload codec id (codec.sha256 (concat (b ∷ bs))) total chunk in
        let h1 = (blob_on_message codec most now blob_offer ctx offer h).0 in
        Arrived ctx id (concat (b ∷ bs)) h (receive_chunks later ctx id 0 (b ∷ bs) h1)
  blob_arrives now later ctx id total chunk b bs h fits sized count alone =
      let hash = codec.sha256 (concat (b ∷ bs)) in
      let t = new_inbound now id ctx.peer_id hash total chunk (suc (length bs)) in
      let h1 : BlobHandler = record h { inbound = insert id t h.inbound } in
      rw (blob_on_message-offer_payload now ctx id hash total chunk h fits sized, count)
        (rest_arrives later ctx id t [] b bs h1 (lookup-insert_self id t h.inbound) refl alone)

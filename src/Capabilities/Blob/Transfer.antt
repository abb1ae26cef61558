-- ===== src/Capabilities/Blob/Transfer.antt =====
-- A blob from its provider to its consumer.

use howm.Base.{
  ℕ, zero, suc, ◌+◌, ◌-◌, ◌*◌, ◌^◌, ◌≡◌, ◌<◌, ◌≤◌, ap, ◌∙◌, sym, subst, some, List, [], ◌∷◌, ◌++◌,
  append_assoc, Bytes, bytes_ord, nat_ord, lookup, length, take, drop, insert, arith,
}
use howm.Protocol.Message.{ProtocolMessage}
use howm.Protocol.Cbor.Codec.{Codec}
use howm.Capabilities.Payload.{CapabilityContext, make_capability_msg}
use howm.Capabilities.Senders.{appended, lookup-send_msg_self}
use howm.Capabilities.Blob.{
  BlobHandler, blob_offer, blob_send_msg, chunk_size_of, div_ceil, max_bytes, hash_len,
}
use howm.Capabilities.Blob.Sending.{offer_payload, send_blob, new_outbound}
use howm.Capabilities.Blob.Receiving.{blob_on_message}
use howm.Capabilities.BlobStore.{read_all}
use howm.Capabilities.BlobStore.Writing.{AtRest}
use howm.Capabilities.Blob.Progress.{concat}
use howm.Capabilities.Blob.Arrival.{Arrived, receive_chunks, blob_arrives}
use howm.Capabilities.Blob.Provision.{
  pieces, chunk_letters, sent_chunks, concat-pieces, length-pieces, div_ceil-mul, take_all,
}

-- All pieces make up the blob.
all_pieces :
    (b : Bytes) (most chunk : ℕ)
    → chunk ≤ most
    → 0 < chunk
    → length b + chunk ≤ 2 ^ 64
    → concat (pieces b most chunk (div_ceil (length b) chunk) 0) ≡ b
all_pieces b most chunk whole positive small =
    let n = div_ceil (length b) chunk in
    let bounds = div_ceil-mul (length b) chunk positive in
    let first : 0 * chunk ≡ 0 = omega arith in
    let within : 0 * chunk + n * chunk ≤ 2 ^ 64 = ground (arith, bounds.1, first) in
    concat-pieces b most chunk n 0 whole positive within
    ∙ ap (λ k. take (n * chunk) (drop k b)) first
    ∙ take_all (n * chunk) b bounds.0

module _ (codec : Codec) (most : ℕ) where
  provided :
      (now : ℕ) (ctx : CapabilityContext) (id : ℕ) (hash b : Bytes) (sent : List ProtocolMessage)
      (h : BlobHandler)
      → read_all hash h.store ≡ some b
      → lookup ctx.peer_id h.peer_senders ≡ some sent
      → let chunk = chunk_size_of ctx.params in
        let total = length b in
        lookup ctx.peer_id (send_blob codec most now ctx id hash 0 h).peer_senders
        ≡ some (
            sent
            ++ make_capability_msg blob_offer (offer_payload codec id hash total chunk)
              ∷ chunk_letters codec most id 0 (pieces b most chunk (div_ceil total chunk) 0))
  unfolding send_blob blob_send_msg
  provided now ctx id hash b sent h held channel =
      let p = ctx.peer_id in
      let chunk = chunk_size_of ctx.params in
      let total = length b in
      let offer = make_capability_msg blob_offer (offer_payload codec id hash total chunk) in
      let offered = blob_send_msg p blob_offer (offer_payload codec id hash total chunk) h in
      let h1 : BlobHandler = record offered {
        outbound = insert id (new_outbound now id p hash total chunk) offered.outbound;
      } in
      let ready : lookup p h1.peer_senders ≡ some (sent ++ offer ∷ []) =
        lookup-send_msg_self p offer h.peer_senders ∙ ap (appended offer) channel in
      let n = div_ceil total chunk in
      let count : n - 0 ≡ n = omega arith in
      rw held (
        sent_chunks codec most p id hash b chunk (n - 0) 0 (sent ++ offer ∷ []) h1 held ready
        ∙ ap
            (λ k.
              some
                ((sent ++ offer ∷ []) ++ chunk_letters codec most id 0 (pieces b most chunk k 0)))
            count
        ∙ ap some (
            append_assoc sent (offer ∷ [])
              (chunk_letters codec most id 0 (pieces b most chunk n 0))))

  arrives :
      (now later : ℕ) (ctx : CapabilityContext) (id total chunk : ℕ) (bs : List Bytes)
      (h : BlobHandler)
      → total ≤ max_bytes ctx.params
      → length (codec.sha256 (concat bs)) ≡ hash_len
      → div_ceil total chunk ≡ length bs
      → 0 < length bs
      → AtRest h.store
      → let offer = offer_payload codec id (codec.sha256 (concat bs)) total chunk in
        let h1 = (blob_on_message codec most now blob_offer ctx offer h).0 in
        Arrived codec most ctx id (concat bs) h (receive_chunks codec most later ctx id 0 bs h1)
  arrives now later ctx id total chunk [] h fits sized count some_chunk alone = absurd (omega arith)
  arrives now later ctx id total chunk (b ∷ bs) h fits sized count some_chunk alone =
      blob_arrives codec most now later ctx id total chunk b bs h fits sized count alone

  -- A provider that has a blob, and is asked for all of it by a peer to which it has a channel, puts an OFFER
  -- and then all chunks, in order, into the channel; a consumer in whose store no other writer is at work, and
  -- that handles these messages in their order, has the blob in its store under its hash and each other blob as
  -- before, answers COMPLETE, broadcasts the end of the transfer and has forgotten it. The blob is not empty and not larger than the consumer's limit, its hash has 32 bytes, its
  -- size and one chunk more fit in 64 bits, and a chunk of the provider's size can be read at once.
  pub blob_transferred :
      (now later : ℕ) (asker giver : CapabilityContext) (id : ℕ) (b : Bytes)
      (sent : List ProtocolMessage) (alice bob : BlobHandler)
      → read_all (codec.sha256 b) bob.store ≡ some b
      → lookup asker.peer_id bob.peer_senders ≡ some sent
      → 0 < length b
      → length b ≤ max_bytes giver.params
      → length (codec.sha256 b) ≡ hash_len
      → 0 < chunk_size_of asker.params
      → chunk_size_of asker.params ≤ most
      → length b + chunk_size_of asker.params ≤ 2 ^ 64
      → AtRest alice.store
      → let chunk = chunk_size_of asker.params in
        let bs = pieces b most chunk (div_ceil (length b) chunk) 0 in
        let offer = offer_payload codec id (codec.sha256 b) (length b) chunk in
        let bob1 = send_blob codec most now asker id (codec.sha256 b) 0 bob in
        let alice1 = (blob_on_message codec most now blob_offer giver offer alice).0 in
        (lookup asker.peer_id bob1.peer_senders
          ≡ some (sent ++ make_capability_msg blob_offer offer ∷ chunk_letters codec most id 0 bs))
        × Arrived codec most giver id b alice (receive_chunks codec most later giver id 0 bs alice1)
  blob_transferred now later asker giver id b sent alice bob held channel filled fits sized positive
        whole small alone =
      let chunk = chunk_size_of asker.params in
      let n = div_ceil (length b) chunk in
      let bs = pieces b most chunk n 0 in
      let all = all_pieces b most chunk whole positive small in
      let counted = length-pieces b most chunk n 0 in
      let bounds = div_ceil-mul (length b) chunk positive in
      let sized' : length (codec.sha256 (concat bs)) ≡ hash_len = rw all sized in
      let some_chunk : 0 < length bs =
        some_of n chunk (length b) (length bs) filled bounds.0 counted in
      let done =
        arrives now later giver id (length b) chunk bs alice fits sized' (sym counted) some_chunk
          alone in
      (
        provided now asker id (codec.sha256 b) b sent bob held channel,
        subst
            (λ x. Arrived codec most giver id x alice (
              receive_chunks codec most later giver id 0 bs
                (blob_on_message codec most now blob_offer giver
                  (offer_payload codec id (codec.sha256 x) (length b) chunk) alice).0))
            all done,
      )
    where
      some_of : (n chunk total count : ℕ) → 0 < total → total ≤ n * chunk → count ≡ n → 0 < count
      some_of zero chunk total count f le e = absurd (omega arith)
      some_of (suc n) chunk total count f le e = omega arith

-- ===== src/Capabilities/Blob/Integrity.antt =====
-- What the store of blobs holds, over all runs of the handler.
use howm.Base.{
  ℕ, ◌+◌, ◌<◌, ◌≡◌, refl, Bool-cases, inl, inr, Option, none, some, List, [], Bytes, bytes_ord,
  nat_ord, ◌==◌, ==→eq, lookup, insert, All, ltb, leb, nat_eq, length, Result, ok, err, unwrap_or,
}
use howm.Protocol.Manifest.{PeerId}
use howm.Protocol.Cbor.Values.{Value}
use howm.Protocol.Cbor.Scopes.{CborError}
use howm.Protocol.Cbor.Codec.{Codec}
use howm.Capabilities.Payload.{CapabilityContext, decode_payload, cbor_get_int, cbor_get_bytes}
use howm.Capabilities.BlobStore.{BlobStore, StoreError, new_blob_store, delete}
use howm.Capabilities.BlobStore.Writing.{
  AtRest, put_blob, put_blob-wrong, put_blob-right, grown-All, grown-AtRest, grown-insert-All,
  grown-insert-AtRest, remove-All,
}
use howm.Capabilities.Blob.{
  InboundTransfer, BlobHandler, new_blobs, add_peer_sender, remove_peer_sender, emit_transfer_event,
  blob_send_msg, reap_stale_transfers, blob_on_deactivated, blob_req, blob_offer, blob_chunk,
  blob_ack, max_retransmit_attempts, is_complete, assembled_data, hash_len, transfer_id_key,
  blob_hash_key, max_bytes, chunk_index_key, blob_data_key, total_size_key,
}
use howm.Capabilities.Blob.Sending.{BlobError, req_message, ack_message}
use howm.Capabilities.Blob.Unchanged.{req_message-store, ack_message-store}
use howm.Capabilities.Blob.Receiving.{
  put_chunk, offer_message, retry, finish, take_chunk, chunk_message, with_payload, blob_on_message,
}

-- Each blob has the hash under which it is, and no writer is at work or has left a file.
abbrev pub Intact : Codec → BlobStore → Type 0
Intact codec s = AtRest s × All (λ e. codec.sha256 (s.files e.1) ≡ e.0) s.blobs

-- The handlers that a run of the operations leads to, with the deletions and the writings of other parts of
-- the daemon into the same store. No two writers are at work at the same time: a message is handled, and a blob
-- of another part written, before the next step begins.
pub data BlobsReached (codec : Codec) (most : ℕ) : BlobHandler → Type 0 where
  start : BlobsReached codec most (new_blobs new_blob_store)
  after_add_sender :
      {h : BlobHandler} (p : PeerId)
      → BlobsReached codec most h
      → BlobsReached codec most (add_peer_sender p h)
  after_remove_sender :
      {h : BlobHandler} (p : PeerId)
      → BlobsReached codec most h
      → BlobsReached codec most (remove_peer_sender p h)
  after_message :
      {h : BlobHandler} (now msg_type : ℕ) (ctx : CapabilityContext) (payload : Bytes)
      → BlobsReached codec most h
      → BlobsReached codec most (blob_on_message codec most now msg_type ctx payload h).0
  after_reap :
      {h : BlobHandler} (now : ℕ)
      → BlobsReached codec most h
      → BlobsReached codec most (reap_stale_transfers now h)
  after_deactivated :
      {h : BlobHandler} (ctx : CapabilityContext)
      → BlobsReached codec most h
      → BlobsReached codec most (blob_on_deactivated ctx h)
  after_delete :
      {h : BlobHandler} (hash : Bytes)
      → BlobsReached codec most h
      → BlobsReached codec most (record h { store = (delete hash h.store).0 })
  after_write :
      {h : BlobHandler} (hash b : Bytes)
      → BlobsReached codec most h
      → BlobsReached codec most (record h { store = (put_blob codec hash b h.store).0 })

module _ (codec : Codec) where
  delete-Intact : (hash : Bytes) (s : BlobStore) → Intact codec s → Intact codec (delete hash s).0
  unfolding delete
  delete-Intact hash s ((e, below), a) = (
    (e, remove-All (λ x. x.1 < s.next) hash s.blobs below),
    remove-All (λ x. codec.sha256 (s.files x.1) ≡ x.0) hash s.blobs a,
  )

  put_blob-Intact :
      (hash b : Bytes) (s : BlobStore) → Intact codec s → Intact codec (put_blob codec hash b s).0
  put_blob-Intact hash b s (r, a) =
      let Right : Bytes × Bytes → Type 0 = λ e. codec.sha256 e.1 ≡ e.0 in
      elim (Bool-cases (codec.sha256 b == hash)) [
        | inr e ↦
            rw (put_blob-wrong codec hash b s r.0 e) (grown-AtRest b s r, grown-All Right b s r a)
        | inl e ↦ rw (put_blob-right codec hash b s r.0 e) (
          grown-insert-AtRest hash b s r,
          grown-insert-All Right hash b s r (==→eq (codec.sha256 b) hash e) a,
        )
      ]

  retry-store :
      (p : PeerId) (id : ℕ) (t : InboundTransfer) (h : BlobHandler)
      → (retry codec p id t h).store ≡ h.store
  unfolding emit_transfer_event blob_send_msg
  retry-store p id t h = elim (Bool-cases (ltb max_retransmit_attempts (t.retransmit_count + 1))) [
    | inl e ↦ rw e refl
    | inr e ↦ rw e refl
  ]

  finish-store :
      (p : PeerId) (id : ℕ) (t : InboundTransfer) (h : BlobHandler) (s : BlobStore)
      (r : Result StoreError ℕ)
      → (finish codec p id t h (s, r)).store ≡ s
  unfolding emit_transfer_event blob_send_msg
  finish-store p id t h s (ok n) = refl
  finish-store p id t h s (err e) = retry-store p id t (record h { store = s })

  take_chunk-Intact :
      (ctx : CapabilityContext) (id i : ℕ) (contents : Bytes) (h : BlobHandler)
      (t : Option InboundTransfer)
      → Intact codec h.store
      → Intact codec (take_chunk codec ctx id i contents h t).store
  take_chunk-Intact ctx id i contents h none a = a
  take_chunk-Intact ctx id i contents h (some t) a =
      let t' = put_chunk i contents t in
      let h' : BlobHandler = record h { inbound = insert id t' h.inbound } in
      let after = put_blob codec t.blob_hash (assembled_data t') h.store in
      elim (Bool-cases (leb (length t.chunks) i)) [
        | inl e ↦ rw e a
        | inr e ↦ elim (Bool-cases (is_complete t')) [
          | inl k ↦
              rw (e, k)
                (rw (finish-store ctx.peer_id id t' h' after.0 after.1)
                  (put_blob-Intact t.blob_hash (assembled_data t') h.store a))
          | inr k ↦ rw (e, k) a
        ]
      ]

  offer_message-store :
      (now : ℕ) (ctx : CapabilityContext) (h : BlobHandler) (m : List (Value × Value))
      → (offer_message codec now ctx h m).store ≡ h.store
  unfolding offer_message blob_send_msg
  offer_message-store now ctx h m =
      elim (Bool-cases (ltb (max_bytes ctx.params) (unwrap_or (cbor_get_int m total_size_key) 0))) [
        | inl e ↦ rw e refl
        | inr e ↦
            elim (Bool-cases
              (nat_eq (length (unwrap_or (cbor_get_bytes m blob_hash_key) [])) hash_len)) [
                | inl k ↦ rw (e, k) refl
                | inr k ↦ rw (e, k) refl
              ]
      ]

  with_payload-Intact :
      (r : Result CborError (List (Value × Value))) (h : BlobHandler)
      (f : List (Value × Value) → BlobHandler × Result BlobError (Unit {0}))
      → Intact codec h.store
      → ((m : List (Value × Value)) → Intact codec (f m).0.store)
      → Intact codec (with_payload r h f).0.store
  with_payload-Intact (err e) h f a step = a
  with_payload-Intact (ok m) h f a step = step m

  blob_on_message-Intact :
      (most now msg_type : ℕ) (ctx : CapabilityContext) (payload : Bytes) (h : BlobHandler)
      → Intact codec h.store
      → Intact codec (blob_on_message codec most now msg_type ctx payload h).0.store
  unfolding blob_on_message chunk_message
  blob_on_message-Intact most now msg_type ctx payload h a =
      let read = decode_payload codec payload in
      elim (Bool-cases (nat_eq msg_type blob_req)) [
        | inl e ↦ rw e (
            with_payload-Intact read h (req_message codec most now ctx h) a
              (λ m. rw (req_message-store codec most now ctx h m) a))
        | inr e ↦ elim (Bool-cases (nat_eq msg_type blob_offer)) [
          | inl o ↦
              rw (e, o)
                (with_payload-Intact read h (λ m. (offer_message codec now ctx h m, ok tt)) a
                  (λ m. rw (offer_message-store now ctx h m) a))
          | inr o ↦ elim (Bool-cases (nat_eq msg_type blob_chunk)) [
            | inl c ↦
                rw (e, o, c)
                  (with_payload-Intact read h (λ m. (chunk_message codec ctx h m, ok tt)) a
                    (λ m.
                      let id = unwrap_or (cbor_get_int m transfer_id_key) 0 in
                      take_chunk-Intact ctx id (unwrap_or (cbor_get_int m chunk_index_key) 0)
                        (unwrap_or (cbor_get_bytes m blob_data_key) []) h (lookup id h.inbound) a))
            | inr c ↦ elim (Bool-cases (nat_eq msg_type blob_ack)) [
              | inl k ↦
                  rw (e, o, c, k)
                    (with_payload-Intact read h (λ m. (ack_message codec most ctx h m, ok tt)) a
                      (λ m. rw (ack_message-store codec most ctx h m) a))
              | inr k ↦ rw (e, o, c, k) a
            ]
          ]
        ]
      ]

  -- If no two writers are at work at the same time, then whatever messages are handled, in whatever order and from
  -- whomever, and whatever other parts of the daemon write through a writer, each blob in the store has the hash
  -- under which it is there, and no writer leaves a temporary file.
  pub BlobsReached-Intact :
      (most : ℕ) {h : BlobHandler} → BlobsReached codec most h → Intact codec h.store
  unfolding add_peer_sender remove_peer_sender reap_stale_transfers blob_on_deactivated delete
  BlobsReached-Intact most start = ((refl, tt), tt)
  BlobsReached-Intact most (after_add_sender p r) = BlobsReached-Intact most r
  BlobsReached-Intact most (after_remove_sender p r) = BlobsReached-Intact most r
  BlobsReached-Intact most (after_message {h} now msg_type ctx payload r) =
      blob_on_message-Intact most now msg_type ctx payload h (BlobsReached-Intact most r)
  BlobsReached-Intact most (after_reap now r) = BlobsReached-Intact most r
  BlobsReached-Intact most (after_deactivated ctx r) = BlobsReached-Intact most r
  BlobsReached-Intact most (after_delete {h} hash r) =
      delete-Intact hash h.store (BlobsReached-Intact most r)
  BlobsReached-Intact most (after_write {h} hash b r) =
      put_blob-Intact hash b h.store (BlobsReached-Intact most r)

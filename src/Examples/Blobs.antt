-- ===== src/Examples/Blobs.antt =====
-- A blob of two chunks; the hash of this codec is the identity.
use mathlib.Core.Option
use howm.Base.{
  insert, remove, ◌≡◌, refl, [], ◌∷◌, Bytes, bytes, lookup, some, bytes_ord, nat_ord, arith,
}
use howm.Protocol.Scope.{ScopeParams, default_params, get_ext_uint, as_uint, uint}
use howm.Capabilities.Payload.{CapabilityContext, make_capability_msg}
use howm.Capabilities.BlobStore.{BlobStore, read_all, begin_write, new_blob_store, write, finalize}
use howm.Capabilities.BlobStore.Writing.{put_blob}
use howm.Capabilities.Blob.{BlobHandler, new_blobs, add_peer_sender, blob_offer, blob_chunk}
use howm.Capabilities.Blob.Sending.{offer_payload, chunk_payload, send_blob}
use howm.Capabilities.Blob.Receiving.{blob_on_message}
use howm.Capabilities.Blob.Integrity.{
  Intact, start, after_add_sender, after_message, BlobsReached-Intact,
}
use howm.Capabilities.Blob.Arrival.{Arrived, receive_chunks}
use howm.Capabilities.Blob.Provision.{pieces, chunk_letters}
use howm.Capabilities.Blob.Transfer.{blob_transferred}
use howm.Examples.Manifests.{peer_id_of}
use howm.Examples.StackCodec.{stack_codec}

abbrev ctx : CapabilityContext
ctx = record {
  peer_id = peer_id_of 1;
  params = default_params;
  capability_name = bytes "core.data.blob.1";
}

abbrev contents : Bytes
contents = peer_id_of 7

abbrev consumer : BlobHandler
consumer = add_peer_sender (peer_id_of 1) (new_blobs new_blob_store)

abbrev halves : ScopeParams
halves = record default_params { extensions = (17, uint 16) ∷ [] }

abbrev asker : CapabilityContext
asker = record ctx { params = halves }

abbrev provider : BlobHandler
provider = record (new_blobs (put_blob stack_codec contents contents new_blob_store).0) {
  peer_senders = (peer_id_of 1, []) ∷ [];
}

-- Two writers of one hash: the second empties the file of the first, which is then moved under the hash that the
-- first has verified.
abbrev wrong : Bytes
wrong = 1 ∷ 2 ∷ []

abbrev overlapping : BlobStore
overlapping =
    let (w, s) = write contents (begin_write contents, new_blob_store) in
    let (v, s') = write wrong (begin_write contents, s) in (finalize stack_codec (w, s')).0

overlapping_blob : read_all contents overlapping ≡ some wrong
unfolding write finalize lookup insert
overlapping_blob = refl

blob_transferred_example :
    let bs = pieces contents 4096 16 2 0 in
    let offer = offer_payload stack_codec 4 contents 32 16 in
    let provider1 = send_blob stack_codec 4096 50 asker 4 contents 0 provider in
    let consumer1 = (blob_on_message stack_codec 4096 50 blob_offer ctx offer consumer).0 in
    (lookup (peer_id_of 1) provider1.peer_senders
      ≡ some (make_capability_msg blob_offer offer ∷ chunk_letters stack_codec 4096 4 0 bs))
    × Arrived stack_codec 4096 ctx 4 contents consumer
        (receive_chunks stack_codec 4096 51 ctx 4 0 bs consumer1)
unfolding get_ext_uint Option.bind lookup as_uint insert remove write finalize add_peer_sender
blob_transferred_example =
    blob_transferred stack_codec 4096 50 51 asker ctx 4 contents [] consumer provider refl refl
      (omega arith) (omega arith) refl (omega arith) (omega arith) (omega arith) (refl, tt)

BlobsReached-Intact_example :
    Intact stack_codec
      (blob_on_message stack_codec 4096 50 blob_chunk ctx
        (chunk_payload stack_codec 4 0 contents)
        consumer).0.store
BlobsReached-Intact_example = BlobsReached-Intact stack_codec 4096 (
    after_message 50 blob_chunk ctx (chunk_payload stack_codec 4 0 contents)
      (after_add_sender (peer_id_of 1) start))

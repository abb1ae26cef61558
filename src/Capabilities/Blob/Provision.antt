-- ===== src/Capabilities/Blob/Provision.antt =====
-- The chunks that a provider sends of a blob.

use native.Mathlib.Nat.{mod-eq_of_lt, mod-lt, mul_comm}
use native.Mathlib.Omega.{div_any}
use howm.Base.{
  ℕ, zero, suc, ◌+◌, ◌*◌, ◌/◌, ◌%◌, ◌^◌, ◌≡◌, ◌<◌, ◌≤◌, min, refl, ap, ◌∙◌, sym, Bool-cases, inl,
  inr, some, List, [], ◌∷◌, ◌++◌, append-nil, append_assoc, Bytes, bytes_ord, nat_ord, lookup,
  length, take, drop, nat_eq, nat_eq_iff, arith,
}
use howm.Protocol.Manifest.{PeerId}
use howm.Protocol.Message.{ProtocolMessage}
use howm.Protocol.Cbor.Codec.{Codec}
use howm.Capabilities.Payload.{make_capability_msg}
use howm.Capabilities.Senders.{appended, lookup-send_msg_self}
use howm.Capabilities.BlobStore.{read_chunk, read_all}
use howm.Capabilities.Blob.{BlobHandler, blob_chunk, blob_send_msg, div_ceil}
use howm.Capabilities.Blob.Sending.{chunk_payload, send_one_chunk, send_chunks}
use howm.Capabilities.Blob.Unchanged.{send_one_chunk-store}
use howm.Capabilities.Blob.Progress.{concat}

take_nil : (n : ℕ) → take {A = ℕ} n [] ≡ []
take_nil zero = refl
take_nil (suc n) = refl

drop_nil : (n : ℕ) → drop {A = ℕ} n [] ≡ []
drop_nil zero = refl
drop_nil (suc n) = refl

take_add : (a b : ℕ) (xs : Bytes) → take (a + b) xs ≡ take a xs ++ take b (drop a xs)
take_add zero b xs = let e : zero + b ≡ b = omega arith in ap (λ n. take n xs) e
take_add (suc a) b [] = take_nil (suc a + b) ∙ sym (take_nil b)
take_add (suc a) b (x ∷ xs) =
    let e : suc a + b ≡ suc (a + b) = omega arith in
    ap (λ n. take n (x ∷ xs)) e ∙ ap (λ l. x ∷ l) (take_add a b xs)

drop_add : (a b : ℕ) (xs : Bytes) → drop (a + b) xs ≡ drop b (drop a xs)
drop_add zero b xs = let e : zero + b ≡ b = omega arith in ap (λ n. drop n xs) e
drop_add (suc a) b [] = drop_nil (suc a + b) ∙ sym (drop_nil b)
drop_add (suc a) b (x ∷ xs) =
    let e : suc a + b ≡ suc (a + b) = omega arith in ap (λ n. drop n (x ∷ xs)) e ∙ drop_add a b xs

pub take_all : (n : ℕ) (xs : Bytes) → length xs ≤ n → take n xs ≡ xs
take_all zero [] h = refl
take_all zero (x ∷ xs) h = absurd (omega arith)
take_all (suc n) [] h = refl
take_all (suc n) (x ∷ xs) h = ap (λ l. x ∷ l) (take_all n xs (omega arith))

module _ (data_of : Bytes) (most chunk : ℕ) where
  -- What one read gives of the `i`th chunk.
  abbrev pub piece : ℕ → Bytes
  piece i = take (min chunk most) (drop (i * chunk % 2 ^ 64) data_of)

  abbrev pub pieces : ℕ → ℕ → List Bytes
  pieces zero i = []
  pieces (suc n) i = piece i ∷ pieces n (i + 1)

  pub concat-pieces :
      (n i : ℕ)
      → chunk ≤ most
      → 0 < chunk
      → i * chunk + n * chunk ≤ 2 ^ 64
      → concat (pieces n i) ≡ take (n * chunk) (drop (i * chunk) data_of)
  concat-pieces zero i whole some_size small =
      let none_left : zero * chunk ≡ zero = omega arith in
      sym (ap (λ k. take k (drop (i * chunk) data_of)) none_left)
  concat-pieces (suc n) i whole some_size small =
      let step : (i + 1) * chunk ≡ i * chunk + chunk = omega arith in
      let size : suc n * chunk ≡ chunk + n * chunk = omega arith in
      let below : i * chunk < 2 ^ 64 = omega arith in
      let rest = concat-pieces n (i + 1) whole some_size (omega arith) in
      let full : min chunk most ≡ chunk = omega arith in
      rw (mod-eq_of_lt below, full, size, take_add chunk (n * chunk) (drop (i * chunk) data_of))
        (ap (λ l. take chunk (drop (i * chunk) data_of) ++ l)
          (rest
            ∙ ap (λ k. take (n * chunk) (drop k data_of)) step
            ∙ ap (take (n * chunk)) (drop_add (i * chunk) chunk data_of)))

  pub length-pieces : (n i : ℕ) → length (pieces n i) ≡ n
  length-pieces zero i = refl
  length-pieces (suc n) i = ap suc (length-pieces n (i + 1))

pub div_ceil-mul : (a b : ℕ) → 0 < b → (a ≤ div_ceil a b * b) × (div_ceil a b * b < a + b)
div_ceil-mul a b positive =
    let parts = div_any a b in
    let turned = mul_comm b (a / b) in
    let less = mod-lt a positive in
    elim (Bool-cases (nat_eq (a % b) 0)) [
      | inl e ↦
          let exact : a % b ≡ 0 = (nat_eq_iff (a % b) 0).0 e in rw e (omega arith, omega arith)
      | inr e ↦
          let more : (a / b + 1) * b ≡ a / b * b + b = omega arith in
          let some_left : 0 < a % b = ground (arith, nat_eq_iff (a % b) 0) in
          rw e (omega arith, omega arith)
    ]

module _ (codec : Codec) (most : ℕ) where
  -- The chunks' messages from the `i`th on.
  abbrev pub chunk_letters : ℕ → ℕ → List Bytes → List ProtocolMessage
  chunk_letters id i [] = []
  chunk_letters id i (b ∷ bs) =
      make_capability_msg blob_chunk (chunk_payload codec id i b) ∷ chunk_letters id (i + 1) bs

  sent_chunk :
      (p : PeerId) (id : ℕ) (hash b : Bytes) (i chunk : ℕ) (sent : List ProtocolMessage)
      (h : BlobHandler)
      → read_all hash h.store ≡ some b
      → lookup p h.peer_senders ≡ some sent
      → lookup p (send_one_chunk codec most p id hash i chunk h).peer_senders
        ≡ some (
            sent
            ++ make_capability_msg blob_chunk (chunk_payload codec id i (piece b most chunk i))
              ∷ [])
  unfolding send_one_chunk read_chunk blob_send_msg
  sent_chunk p id hash b i chunk sent h held channel =
      let msg = make_capability_msg blob_chunk (chunk_payload codec id i (piece b most chunk i)) in
      rw held (lookup-send_msg_self p msg h.peer_senders ∙ ap (appended msg) channel)

  pub sent_chunks :
      (p : PeerId) (id : ℕ) (hash b : Bytes) (chunk n i : ℕ) (sent : List ProtocolMessage)
      (h : BlobHandler)
      → read_all hash h.store ≡ some b
      → lookup p h.peer_senders ≡ some sent
      → lookup p (send_chunks codec most p id hash chunk n i h).peer_senders
        ≡ some (sent ++ chunk_letters id i (pieces b most chunk n i))
  unfolding send_chunks
  sent_chunks p id hash b chunk zero i sent h held channel =
      channel ∙ ap some (sym (append-nil sent))
  sent_chunks p id hash b chunk (suc n) i sent h held channel =
      let msg = make_capability_msg blob_chunk (chunk_payload codec id i (piece b most chunk i)) in
      let h1 = send_one_chunk codec most p id hash i chunk h in
      let held1 : read_all hash h1.store ≡ some b =
        ap (read_all hash) (send_one_chunk-store codec most p id hash i chunk h) ∙ held in
      sent_chunks p id hash b chunk n (i + 1) (sent ++ msg ∷ []) h1 held1
        (sent_chunk p id hash b i chunk sent h held channel)
      ∙ ap some
          (append_assoc sent (msg ∷ []) (chunk_letters id (i + 1) (pieces b most chunk n (i + 1))))

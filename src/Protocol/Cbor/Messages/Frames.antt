-- ===== src/Protocol/Cbor/Messages/Frames.antt =====
-- node/p2pcd-types/src/cbor.rs: `ProtocolMessage::encode` and `decode`, a length in four bytes, big end
-- first, before the payload. A reader is the list of the bytes that it will deliver.
use mathlib.Core.Option
use howm.Base.{
  ℕ, ◌+◌, ◌*◌, ◌/◌, ◌%◌, ◌^◌, ◌≤◌, ◌<◌, ◌≡◌, refl, ◌∙◌, subst, true, false, Option, none, some, [],
  ◌∷◌, ◌++◌, append_assoc, Bytes, Result, ok, err, ◌>>=◌, ltb, leb, length, take, drop, take-append,
  drop-append, length-append, if◌then◌else◌, arith,
}
use howm.Protocol.Message.{ProtocolMessage}
use howm.Protocol.Cbor.Scopes.{CborError, too_large, truncated}
use howm.Protocol.Cbor.Codec.{Codec}
use howm.Protocol.Cbor.Messages.{to_cbor_bytes, from_cbor_bytes}
use howm.Protocol.Cbor.Messages.RoundTrip.{IsSendable, received, from_cbor_bytes-to_cbor_bytes}

-- 64 MiB.
abbrev pub max_message : ℕ
max_message = 67108864

-- `(n as u32).to_be_bytes()`
unfoldable pub to_be_bytes : ℕ → Bytes
to_be_bytes n = n / 2 ^ 24 % 256 ∷ n / 2 ^ 16 % 256 ∷ n / 2 ^ 8 % 256 ∷ n % 256 ∷ []

-- `u32::from_be_bytes`; the list has four bytes.
unfoldable pub from_be_bytes : Bytes → ℕ
from_be_bytes (a ∷ b ∷ c ∷ d ∷ rest) = a * 2 ^ 24 + b * 2 ^ 16 + c * 2 ^ 8 + d
from_be_bytes _ = 0

-- A reader that ends early delivers nothing.
unfoldable pub read_exact : ℕ → Bytes → Result CborError (Bytes × Bytes)
read_exact n input = if leb n (length input) then ok (take n input, drop n input) else err truncated

module _ (codec : Codec) where
  abbrev pub frame : Bytes → Bytes
  frame payload = to_be_bytes (length payload) ++ payload

  unfoldable pub encode : ProtocolMessage → Option Bytes
  encode m = Option.map frame (to_cbor_bytes codec m)

  abbrev pub read_payload : ℕ → Bytes → Result CborError (ProtocolMessage × Bytes)
  read_payload len input =
      if ltb max_message len
      then err too_large
      else read_exact len input >>= λ (payload, rest).
          from_cbor_bytes codec payload >>= λ m. ok (m, rest)

  -- The message and what the reader still has.
  unfoldable pub decode : Bytes → Result CborError (ProtocolMessage × Bytes)
  decode input = do (prefix, rest) ← read_exact 4 input; read_payload (from_be_bytes prefix) rest

be_round_trip : (n : ℕ) → n < 2 ^ 32 → from_be_bytes (to_be_bytes n) ≡ n
unfolding from_be_bytes to_be_bytes
be_round_trip n h = omega arith

read_exact-append : (xs ys : Bytes) → read_exact (length xs) (xs ++ ys) ≡ ok (xs, ys)
unfolding read_exact
read_exact-append xs ys =
    let fits : leb (length xs) (length (xs ++ ys)) ≡ true = ground (arith, length-append xs ys) in
    rw (fits, take-append xs ys, drop-append xs ys) refl

read_prefix :
    (n : ℕ) (rest : Bytes) → read_exact 4 (to_be_bytes n ++ rest) ≡ ok (to_be_bytes n, rest)
read_prefix n rest = unfold to_be_bytes in read_exact-append (to_be_bytes n) rest

module _ (codec : Codec) where
  -- The length prefix is read as the length of the payload.
  decode-frame :
      (payload rest : Bytes)
      → length payload < 2 ^ 32
      → decode codec (frame codec payload ++ rest)
        ≡ read_payload codec (length payload) (payload ++ rest)
  unfolding decode
  decode-frame payload rest h =
      rw
        (
          append_assoc (to_be_bytes (length payload)) payload rest,
          read_prefix (length payload) (payload ++ rest),
          be_round_trip (length payload) h,
        )
        refl

  read_payload-append :
      (payload rest : Bytes) (m : ProtocolMessage)
      → length payload ≤ max_message
      → from_cbor_bytes codec payload ≡ ok m
      → read_payload codec (length payload) (payload ++ rest) ≡ ok (m, rest)
  read_payload-append payload rest m h e =
      let fits : ltb max_message (length payload) ≡ false = ground arith in
      rw (fits, read_exact-append payload rest, e) refl

  length-frame : (payload : Bytes) → length (frame codec payload) ≡ length payload + 4
  length-frame payload = unfold to_be_bytes in omega arith

  frame_decodes :
      (payload rest : Bytes) (m : ProtocolMessage)
      → from_cbor_bytes codec payload ≡ ok m
      → length (frame codec payload) ≤ max_message + 4
      → decode codec (frame codec payload ++ rest) ≡ ok (m, rest)
  frame_decodes payload rest m e h =
      let small : length payload ≤ max_message = omega (arith, length-frame payload) in
      decode-frame payload rest (omega arith) ∙ read_payload-append payload rest m small e

  frame_refused :
      (payload rest : Bytes)
      → max_message + 4 < length (frame codec payload)
      → length (frame codec payload) < 2 ^ 32
      → decode codec (frame codec payload ++ rest) ≡ err too_large
  frame_refused payload rest h k =
      let small : length payload < 2 ^ 32 = omega (arith, length-frame payload) in
      let over : ltb max_message (length payload) ≡ true = ground (arith, length-frame payload) in
      decode-frame payload rest small ∙ rw over refl

  framed :
      (o : Option Bytes) (m : ProtocolMessage) (b : Bytes)
      → Option.map (from_cbor_bytes codec) o ≡ some (ok m)
      → Option.map (frame codec) o ≡ some b
      → (payload : Bytes) × (frame codec payload ≡ b) × (from_cbor_bytes codec payload ≡ ok m)
  framed none m b e f = cc
  framed (some payload) m b e f = (payload, cc, cc)

  -- A sendable message's frame of at most 64 MiB and its prefix is decoded to the message, whatever
  -- follows it, and what follows is left to the reader.
  pub decode-encode :
      (m : ProtocolMessage) (b rest : Bytes)
      → IsSendable m
      → encode codec m ≡ some b
      → length b ≤ max_message + 4
      → decode codec (b ++ rest) ≡ ok (received m, rest)
  unfolding encode
  decode-encode m b rest s e h =
      let (payload, same, reads) =
        framed (to_cbor_bytes codec m) (received m) b (from_cbor_bytes-to_cbor_bytes codec m s) e in
      subst (λ c. decode codec (c ++ rest) ≡ ok (received m, rest)) same
        (frame_decodes payload rest (received m) reads (rw same h))

  -- A sendable message's frame of more than 64 MiB and its prefix, up to the range of the
  -- prefix, is encoded all the same, and the reader refuses it.
  pub decode-encode_too_large :
      (m : ProtocolMessage) (b rest : Bytes)
      → IsSendable m
      → encode codec m ≡ some b
      → max_message + 4 < length b
      → length b < 2 ^ 32
      → decode codec (b ++ rest) ≡ err too_large
  unfolding encode
  decode-encode_too_large m b rest s e h k =
      let (payload, same, reads) =
        framed (to_cbor_bytes codec m) (received m) b (from_cbor_bytes-to_cbor_bytes codec m s) e in
      subst (λ c. decode codec (c ++ rest) ≡ err too_large) same
        (frame_refused payload rest (rw same h) (rw same k))

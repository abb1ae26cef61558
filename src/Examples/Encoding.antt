-- ===== src/Examples/Encoding.antt =====
-- The encoding at concrete messages, over the codec of `StackCodec`.
use mathlib.Core.Option
use mathlib.Core.Option.{some-injective}
use howm.Base.{
  ℕ, zero, suc, ◌+◌, ◌≡◌, refl, ap, ◌∙◌, some, [], ◌∷◌, ◌++◌, Bytes, bytes_ord, nat_ord, ok, err,
  length, length-append, drop, drop-append, arith, subst, Text, bytes_eq_iff,
}
use howm.Protocol.MessageType
use howm.Protocol.Manifest.{DiscoveryManifest, find_cap, sort_capabilities}
use howm.Protocol.Message.{ping, capability_msg}
use howm.Protocol.Cbor.Values.{Value}
use howm.Protocol.Cbor.Scopes.{too_large}
use howm.Protocol.Cbor.Scopes.RoundTrip.{IsEncodable}
use howm.Protocol.Cbor.Capabilities.RoundTrip.{IsEncodableCap}
use howm.Protocol.Cbor.Codec.{Codec}
use howm.Protocol.Cbor.Manifests.{to_cbor, from_cbor, personal_hash}
use howm.Protocol.Cbor.Manifests.RoundTrip.{from_cbor-to_cbor}
use howm.Protocol.Cbor.Manifests.Hash.{personal_hash_order}
use howm.Protocol.Cbor.Messages.{to_cbor_bytes, from_cbor_bytes, message_pairs}
use howm.Protocol.Cbor.Messages.RoundTrip.{from_cbor_bytes-to_cbor_bytes}
use howm.Protocol.Cbor.Messages.Frames.{
  encode, decode, frame, to_be_bytes, max_message, decode-encode, decode-encode_too_large,
}
use howm.Examples.StackCodec.{stack_codec, write, read, read-write, put, put_bytes, put_text}
use howm.Examples.Manifests.{provider, feed_name, feed_scope, provided_feed, heartbeat, manifest_of}

feed_scope-IsEncodable : (rate : ℕ) → IsEncodable (feed_scope rate)
feed_scope-IsEncodable rate = record { keys_above = (omega arith, tt); in_order = (tt, tt) }

provided_feed-IsEncodableCap : IsEncodableCap provided_feed
provided_feed-IsEncodableCap s e =
    subst IsEncodable (some-injective (feed_scope 10) s e) (feed_scope-IsEncodable 10)

heartbeat-IsEncodableCap : IsEncodableCap heartbeat
heartbeat-IsEncodableCap s e = cc

from_cbor-to_cbor_example :
    from_cbor stack_codec (to_cbor stack_codec provider) ≡ ok (sort_capabilities provider)
from_cbor-to_cbor_example =
    from_cbor-to_cbor stack_codec provider refl
      (provided_feed-IsEncodableCap, (heartbeat-IsEncodableCap, tt))

-- The same capabilities the other way round, later and with another stored hash.
abbrev reordered : DiscoveryManifest
reordered = record (manifest_of 1 (heartbeat ∷ provided_feed ∷ [])) {
  sequence_num = 9;
  personal_hash = [];
}

personal_hash_order_example :
    personal_hash stack_codec provider ≡ personal_hash stack_codec reordered
personal_hash_order_example =
    personal_hash_order stack_codec provider reordered refl refl refl (refl, (refl, tt))
      (refl, (refl, tt)) same
  where
    same : (name : Text) → find_cap name provider ≡ find_cap name reordered
    same name = ground (arith, bytes_eq_iff feed_name name, bytes_eq_iff (heartbeat.name) name)

from_cbor_bytes-to_cbor_bytes_example :
    Option.map
      (from_cbor_bytes stack_codec)
      (to_cbor_bytes stack_codec (capability_msg 22 (1 ∷ [])))
    ≡ some (ok (capability_msg 22 (1 ∷ [])))
from_cbor_bytes-to_cbor_bytes_example =
    from_cbor_bytes-to_cbor_bytes stack_codec (capability_msg 22 (1 ∷ [])) (omega arith)

abbrev ping_payload : Bytes
ping_payload = 9 ∷ 0 ∷ 0 ∷ 7 ∷ 0 ∷ 42 ∷ 10 ∷ 0 ∷ 0 ∷ 1 ∷ 0 ∷ 4 ∷ 10 ∷ 0 ∷ []

ping_bytes : to_cbor_bytes stack_codec (ping 42) ≡ some ping_payload
unfolding to_cbor_bytes write put put_bytes put_text message_pairs MessageType.to_u64
ping_bytes = refl

ping_frame : encode stack_codec (ping 42) ≡ some (0 ∷ 0 ∷ 0 ∷ 14 ∷ ping_payload)
unfolding encode to_be_bytes
ping_frame = ap (Option.map (frame stack_codec)) ping_bytes

decode-encode_example :
    decode stack_codec (0 ∷ 0 ∷ 0 ∷ 14 ∷ (ping_payload ++ 5 ∷ [])) ≡ ok (ping 42, 5 ∷ [])
decode-encode_example =
    decode-encode stack_codec (ping 42) (0 ∷ 0 ∷ 0 ∷ 14 ∷ ping_payload) (5 ∷ []) tt ping_frame
      (omega arith)

replicate : ℕ → ℕ → Bytes
replicate zero x = []
replicate (suc n) x = x ∷ replicate n x

length-replicate : (n x : ℕ) → length (replicate n x) ≡ n
unfolding replicate
length-replicate zero x = refl
length-replicate (suc n) x = ap suc (length-replicate n x)

-- A codec that puts more than 64 MiB before each value.
padding : Bytes
padding = replicate (max_message + 1) 0

length-padding : length padding ≡ max_message + 1
unfolding padding
length-padding = length-replicate (max_message + 1) 0

padded_read-write : (v : Value) → read (drop (length padding) (padding ++ write v)) ≡ some v
padded_read-write v = ap read (drop-append padding (write v)) ∙ read-write v

abbrev padded_codec : Codec
padded_codec = record {
  to_bytes = λ v. padding ++ write v;
  from_bytes = λ b. read (drop (length padding) b);
  round_trip = padded_read-write;
  sha256 = λ b. b;
}

padded_ping : to_cbor_bytes padded_codec (ping 42) ≡ some (padding ++ ping_payload)
unfolding to_cbor_bytes write put put_bytes put_text message_pairs MessageType.to_u64
padded_ping = refl

padded_frame : encode padded_codec (ping 42) ≡ some (frame padded_codec (padding ++ ping_payload))
unfolding encode
padded_frame = ap (Option.map (frame padded_codec)) padded_ping

length-padded_frame : length (frame padded_codec (padding ++ ping_payload)) ≡ length padding + 18
length-padded_frame = unfold to_be_bytes in omega (arith, length-append padding ping_payload)

decode-encode_too_large_example :
    decode padded_codec (frame padded_codec (padding ++ ping_payload) ++ []) ≡ err too_large
decode-encode_too_large_example =
    decode-encode_too_large padded_codec (ping 42) (frame padded_codec (padding ++ ping_payload)) []
      tt padded_frame (omega (arith, length-padded_frame, length-padding))
      (omega (arith, length-padded_frame, length-padding))

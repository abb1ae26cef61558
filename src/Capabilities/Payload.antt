-- ===== src/Capabilities/Payload.antt =====
-- node/p2pcd/src/cbor_helpers.rs: the payloads of capability messages, maps with integer keys; and
-- the context of node/p2pcd-types/src/handler.rs. The getters of cbor_helpers.rs are copies of those of
-- cbor.rs.
use howm.Base.{ℕ, ◌≡◌, ap, Option, List, map, Bytes, Text, Result, ok, err, ok_or, ◌>>=◌}
use howm.Protocol.Manifest.{PeerId}
use howm.Protocol.Message.{ProtocolMessage, capability_msg}
use howm.Protocol.Scope.{ScopeParams}
use howm.Protocol.Cbor.Values.{
  Value, map_value, entries_of, pairs_of, pairs_of-entries_of, int_key, map_get_int, map_get_text,
  map_get_bytes, map_get_array,
}
use howm.Protocol.Cbor.Scopes.{CborError, expected_map, undecodable}
use howm.Protocol.Cbor.Codec.{Codec}

pub record CapabilityContext : Type 0 where
  pub peer_id : PeerId
  pub params : ScopeParams
  pub capability_name : Text

abbrev pub keyed : ℕ × Value → Value × Value
keyed (k, v) = (int_key k, v)

abbrev pub cbor_get_int : List (Value × Value) → ℕ → Option ℕ
cbor_get_int = map_get_int

abbrev pub cbor_get_text : List (Value × Value) → ℕ → Option Text
cbor_get_text = map_get_text

abbrev pub cbor_get_bytes : List (Value × Value) → ℕ → Option Bytes
cbor_get_bytes = map_get_bytes

abbrev pub cbor_get_array : List (Value × Value) → ℕ → Option (List Value)
cbor_get_array = map_get_array

abbrev pub make_capability_msg : ℕ → Bytes → ProtocolMessage
make_capability_msg = capability_msg

abbrev pub expect_map : Value → Result CborError (List (Value × Value))
expect_map (map_value es) = ok (pairs_of es)
expect_map _ = err expected_map

-- A handler of a payload: nothing changes where the payload is no map.
abbrev pub with_map {ℓ} :
    {S : Type ℓ}
    → Result CborError (List (Value × Value))
    → S
    → (List (Value × Value) → S)
    → S × Result CborError (Unit {0})
with_map (err e) s f = (s, err e)
with_map (ok m) s f = (f m, ok tt)

module _ (codec : Codec) where
  unfoldable pub cbor_encode_map : List (ℕ × Value) → Bytes
  cbor_encode_map pairs = codec.to_bytes (map_value (entries_of (map keyed pairs)))

  unfoldable pub decode_payload : Bytes → Result CborError (List (Value × Value))
  decode_payload b = do v ← ok_or (codec.from_bytes b) undecodable; expect_map v

  -- What is written is read back.
  pub decode_payload-cbor_encode_map :
      (pairs : List (ℕ × Value)) → decode_payload (cbor_encode_map pairs) ≡ ok (map keyed pairs)
  unfolding decode_payload cbor_encode_map
  decode_payload-cbor_encode_map pairs =
      rw (codec.round_trip (map_value (entries_of (map keyed pairs))))
        (ap ok (pairs_of-entries_of (map keyed pairs)))

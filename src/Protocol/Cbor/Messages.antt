-- ===== src/Protocol/Cbor/Messages.antt =====
-- node/p2pcd-types/src/cbor.rs: protocol messages as CBOR, and their frames: a length in four bytes,
-- big end first, and the payload.
pub mod RoundTrip
pub mod Frames
use mathlib.Core.Option
use howm.Base.{
  ℕ, Bool, true, false, not, Option, none, some, List, [], ◌∷◌, ◌++◌, map, filter, Bytes, Text,
  bytes_ord, Map, insert, Result, ok, err, ok_or, ◌>>=◌, collect, nat_eq, ltb, leb, length, take,
  drop, if◌then◌else◌, unwrap_or,
}
use howm.Protocol.MessageType
use howm.Protocol.MessageType.{MessageType}
use howm.Protocol.CloseReason
use howm.Protocol.Manifest.{DiscoveryManifest}
use howm.Protocol.Message.{ProtocolMessage, offer, confirm, close, ping, pong, capability_msg}
use howm.Protocol.Scope.{ScopeParams}
use howm.Protocol.Cbor.Values.{
  Value, text, bytes, array, map_value, values_of, entries_of, pairs_of, int_key, int_value,
  key_u64, is_key, map_get, map_get_int, map_get_bytes, map_get_array, map_get_map,
}
use howm.Protocol.Cbor.Scopes.{
  CborError, expected_map, missing, unknown_reason, not_text, too_large, truncated, undecodable,
  scope_to_cbor_value, scope_from_cbor_value,
}
use howm.Protocol.Cbor.Codec.{Codec}
use howm.Protocol.Cbor.Manifests.{to_cbor, from_cbor, manifest_to_value}

abbrev pub message_type_key : ℕ
message_type_key = 1

abbrev pub manifest_key : ℕ
manifest_key = 2

abbrev pub hash_key : ℕ
hash_key = 3

abbrev pub active_set_key : ℕ
active_set_key = 4

abbrev pub accepted_params_key : ℕ
accepted_params_key = 5

abbrev pub reason_key : ℕ
reason_key = 6

abbrev pub timestamp_key : ℕ
timestamp_key = 7

abbrev pub payload_key : ℕ
payload_key = 8

abbrev pub param_pair : Text × ScopeParams → Value × Value
param_pair (k, v) = (text k, scope_to_cbor_value v)

abbrev pub params_pair : Option (Map Text ScopeParams) → List (Value × Value)
params_pair none = []
params_pair (some ps) =
    (int_key accepted_params_key, map_value (entries_of (map param_pair ps))) ∷ []

abbrev pub type_pair : ℕ → Value × Value
type_pair t = (int_key message_type_key, int_value t)

-- `map.iter().find(..).map(|(_, v)| v)`: the first value under a key.
unfoldable pub find_value : List (Value × Value) → ℕ → Option Value
find_value [] key = none
find_value ((k, v) ∷ es) key = if is_key key (key_u64 k) then some v else find_value es key

abbrev pub expect_text : Value → Result CborError Text
expect_text (text s) = ok s
expect_text _ = err not_text

-- The entries under a text; others are left out.
abbrev pub put_param :
    Value → Value → Map Text ScopeParams → Result CborError (Map Text ScopeParams)
put_param (text n) v out = do s ← scope_from_cbor_value v; ok (insert n s out)
put_param _ v out = ok out

unfoldable pub params_from :
    List (Value × Value) → Map Text ScopeParams → Result CborError (Map Text ScopeParams)
params_from [] out = ok out
params_from ((k, v) ∷ es) out = put_param k v out >>= params_from es

abbrev pub optional_params :
    Option (List (Value × Value)) → Result CborError (Option (Map Text ScopeParams))
optional_params none = ok none
optional_params (some es) = do ps ← params_from es []; ok (some ps)

-- A map without the entries of a key.
abbrev pub without_key : ℕ → List (Value × Value) → List (Value × Value)
without_key key = filter (λ e. not (is_key key (key_u64 e.0)))

abbrev pub reason_of : ℕ → CloseReason.CloseReason
reason_of n = unwrap_or (CloseReason.from_u64 n) CloseReason.error

module _ (codec : Codec) where
  abbrev pub offer_pairs : Option Value → Option (List (Value × Value))
  offer_pairs none = none
  offer_pairs (some v) =
      some (type_pair (MessageType.to_u64 MessageType.offer) ∷ (int_key manifest_key, v) ∷ [])

  -- The entries of a message. An OFFER holds its manifest's bytes read back as a value; `none` is the
  -- panic of that `expect`.
  unfoldable pub message_pairs : ProtocolMessage → Option (List (Value × Value))
  unfolding to_cbor
  message_pairs (offer m) = offer_pairs (codec.from_bytes (to_cbor codec m))
  message_pairs (confirm hash set params) = some (
      type_pair (MessageType.to_u64 MessageType.confirm)
      ∷ (int_key hash_key, bytes hash)
      ∷ (int_key active_set_key, array (values_of (map text set)))
      ∷ params_pair params)
  message_pairs (close hash reason) = some (
      type_pair (MessageType.to_u64 MessageType.close)
      ∷ (int_key hash_key, bytes hash)
      ∷ (int_key reason_key, int_value (CloseReason.to_u64 reason))
      ∷ [])
  message_pairs (ping t) =
      some (
        type_pair (MessageType.to_u64 MessageType.ping) ∷ (int_key timestamp_key, int_value t) ∷ [])
  message_pairs (pong t) =
      some (
        type_pair (MessageType.to_u64 MessageType.pong) ∷ (int_key timestamp_key, int_value t) ∷ [])
  message_pairs (capability_msg t payload) =
      some (type_pair t ∷ (int_key payload_key, bytes payload) ∷ [])

  unfoldable pub to_cbor_bytes : ProtocolMessage → Option Bytes
  unfolding message_pairs
  to_cbor_bytes m = Option.map (λ es. codec.to_bytes (map_value (entries_of es))) (message_pairs m)

  -- An older sender's message has no payload entry: its other entries are the payload.
  abbrev pub payload_of : List (Value × Value) → Option Bytes → Bytes
  payload_of es (some b) = b
  payload_of es none = codec.to_bytes (map_value (entries_of (without_key message_type_key es)))

  unfoldable pub decode_as :
      List (Value × Value) → ℕ → Option MessageType → Result CborError ProtocolMessage
  unfolding map_get find_value params_from from_cbor
  decode_as es n none = ok (capability_msg n (payload_of es (map_get_bytes es payload_key)))
  decode_as es n (some MessageType.offer) = do
    v ← ok_or (find_value es manifest_key) (missing manifest_key)
    m ← from_cbor codec (codec.to_bytes v)
    ok (offer m)
  decode_as es n (some MessageType.confirm) = do
    hash ← ok_or (map_get_bytes es hash_key) (missing hash_key)
    entries ← ok_or (map_get_array es active_set_key) (missing active_set_key)
    set ← collect expect_text entries
    params ← optional_params (map_get_map es accepted_params_key)
    ok (confirm hash set params)
  decode_as es n (some MessageType.close) = do
    hash ← ok_or (map_get_bytes es hash_key) (missing hash_key)
    ok (close hash (reason_of (unwrap_or (map_get_int es reason_key) 0)))
  decode_as es n (some MessageType.ping) = do
    t ← ok_or (map_get_int es timestamp_key) (missing timestamp_key)
    ok (ping t)
  decode_as es n (some MessageType.pong) = do
    t ← ok_or (map_get_int es timestamp_key) (missing timestamp_key)
    ok (pong t)

  unfoldable pub message_from_pairs : List (Value × Value) → Result CborError ProtocolMessage
  unfolding decode_as
  message_from_pairs es = do
    n ← ok_or (map_get_int es message_type_key) (missing message_type_key)
    decode_as es n (MessageType.from_u64 n)

  unfoldable pub message_from_value : Value → Result CborError ProtocolMessage
  unfolding message_from_pairs
  message_from_value (map_value es) = message_from_pairs (pairs_of es)
  message_from_value _ = err expected_map

  unfoldable pub from_cbor_bytes : Bytes → Result CborError ProtocolMessage
  unfolding message_from_value
  from_cbor_bytes b = do v ← ok_or (codec.from_bytes b) undecodable; message_from_value v

-- ===== src/Protocol/Cbor/Manifests.antt =====
-- node/p2pcd-types/src/cbor.rs: the manifest as CBOR, there and back, and its hash.
pub mod RoundTrip
pub mod Hash
use howm.Base.{
  ℕ, Bool, true, false, Option, none, some, List, [], ◌∷◌, map, Bytes, Text, Result, ok, err, ok_or,
  ◌>>=◌, ◌>>◌, collect, nat_eq, length, if◌then◌else◌, sort_by,
}
use howm.Protocol.Manifest.{DiscoveryManifest, cap_name, sort_capabilities, peer_id_len}
use howm.Protocol.Cbor.Values.{
  Value, text, bytes, array, map_value, values_of, entries_of, pairs_of, int_key, int_value,
  map_get, map_get_int, map_get_text, map_get_bytes, map_get_array,
}
use howm.Protocol.Cbor.Scopes.{CborError, expected_map, missing, bad_peer_id, undecodable}
use howm.Protocol.Cbor.Capabilities.{cap_to_cbor_value, cap_from_cbor_value}
use howm.Protocol.Cbor.Codec.{Codec}

abbrev pub version_key : ℕ
version_key = 1

abbrev pub peer_id_key : ℕ
peer_id_key = 2

abbrev pub sequence_num_key : ℕ
sequence_num_key = 3

abbrev pub capabilities_key : ℕ
capabilities_key = 4

abbrev pub personal_hash_key : ℕ
personal_hash_key = 5

abbrev pub hash_algorithm_key : ℕ
hash_algorithm_key = 6

-- The capabilities are those of the sorted copy.
unfoldable pub manifest_pairs : DiscoveryManifest → List (Value × Value)
manifest_pairs m =
    (int_key version_key, int_value m.protocol_version)
    ∷ (int_key peer_id_key, bytes m.peer_id)
    ∷ (int_key sequence_num_key, int_value m.sequence_num)
    ∷ (int_key capabilities_key, array (values_of (map cap_to_cbor_value m.capabilities)))
    ∷ (int_key personal_hash_key, bytes m.personal_hash)
    ∷ (int_key hash_algorithm_key, text m.hash_algorithm)
    ∷ []

unfoldable pub manifest_to_value : DiscoveryManifest → Value
unfolding sort_capabilities manifest_pairs
manifest_to_value m = map_value (entries_of (manifest_pairs (sort_capabilities m)))

abbrev pub check_peer_id : Bytes → Result CborError (Unit {0})
check_peer_id b = if nat_eq (length b) peer_id_len then ok tt else err bad_peer_id

unfoldable pub manifest_from_pairs : List (Value × Value) → Result CborError DiscoveryManifest
unfolding map_get
manifest_from_pairs es = do
  version ← ok_or (map_get_int es version_key) (missing version_key)
  peer ← ok_or (map_get_bytes es peer_id_key) (missing peer_id_key)
  check_peer_id peer
  sequence ← ok_or (map_get_int es sequence_num_key) (missing sequence_num_key)
  caps ← ok_or (map_get_array es capabilities_key) (missing capabilities_key)
  capabilities ← collect cap_from_cbor_value caps
  hash ← ok_or (map_get_bytes es personal_hash_key) (missing personal_hash_key)
  algorithm ← ok_or (map_get_text es hash_algorithm_key) (missing hash_algorithm_key)
  ok (record {
    protocol_version = version;
    peer_id = peer;
    sequence_num = sequence;
    capabilities = capabilities;
    personal_hash = hash;
    hash_algorithm = algorithm;
  })

unfoldable pub manifest_from_value : Value → Result CborError DiscoveryManifest
unfolding manifest_from_pairs
manifest_from_value (map_value es) = manifest_from_pairs (pairs_of es)
manifest_from_value _ = err expected_map

module _ (codec : Codec) where
  unfoldable pub to_cbor : DiscoveryManifest → Bytes
  unfolding manifest_to_value
  to_cbor m = codec.to_bytes (manifest_to_value m)

  unfoldable pub from_cbor : Bytes → Result CborError DiscoveryManifest
  unfolding manifest_from_value
  from_cbor b = do v ← ok_or (codec.from_bytes b) undecodable; manifest_from_value v

  unfoldable pub personal_hash : DiscoveryManifest → Bytes
  unfolding to_cbor
  personal_hash m = codec.sha256 (to_cbor (record m { sequence_num = 0; personal_hash = [] }))

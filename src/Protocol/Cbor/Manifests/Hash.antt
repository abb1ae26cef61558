-- ===== src/Protocol/Cbor/Manifests/Hash.antt =====
-- What the hash of a manifest depends on.
use howm.Base.{◌≡◌, ap, [], Text, sort_by, sort_by-eq, bytes_ord}
use howm.Protocol.Manifest.{
  DiscoveryManifest, cap_name, find_cap, HasDistinctNames, sort_capabilities,
}
use howm.Protocol.Cbor.Codec.{Codec}
use howm.Protocol.Cbor.Manifests.{manifest_pairs, manifest_to_value, personal_hash}
use howm.Protocol.Cbor.Values.{map_value, entries_of}

-- Two manifests of one version, peer and hash algorithm that declare the same capabilities in
-- any two orders, no name twice, have one hash, whatever their sequence numbers and stored
-- hashes.
pub personal_hash_order :
    (codec : Codec) (m n : DiscoveryManifest)
    → m.protocol_version ≡ n.protocol_version
    → m.peer_id ≡ n.peer_id
    → m.hash_algorithm ≡ n.hash_algorithm
    → HasDistinctNames m
    → HasDistinctNames n
    → ((name : Text) → find_cap name m ≡ find_cap name n)
    → personal_hash codec m ≡ personal_hash codec n
unfolding personal_hash sort_capabilities manifest_to_value
personal_hash_order codec m n version peer algorithm dm dn same =
    ap (λ k. codec.sha256 (codec.to_bytes (map_value (entries_of (manifest_pairs k))))) cleared
  where
    sorted : sort_by cap_name m.capabilities ≡ sort_by cap_name n.capabilities
    sorted = sort_by-eq cap_name m.capabilities n.capabilities dm dn same

    cleared :
        sort_capabilities (record m { sequence_num = 0; personal_hash = [] })
        ≡ sort_capabilities (record n { sequence_num = 0; personal_hash = [] })
    cleared = λ i. record {
      protocol_version = version i;
      peer_id = peer i;
      sequence_num = 0;
      capabilities = sorted i;
      personal_hash = [];
      hash_algorithm = algorithm i;
    }

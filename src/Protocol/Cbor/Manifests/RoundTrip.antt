-- ===== src/Protocol/Cbor/Manifests/RoundTrip.antt =====
-- A manifest is read back from its encoding with its capabilities sorted.
use howm.Base.{
  ◌≡◌, refl, ap, ◌∙◌, true, List, [], ◌∷◌, map, Bytes, ok, ok_or, ◌>>=◌, ok_of_bind, collect, All,
  All-sort_by, length, arith, nat_eq, bytes_ord,
}
use howm.Protocol.Manifest.{
  CapabilityDeclaration, DiscoveryManifest, IsPeerId, cap_name, sort_capabilities, peer_id_len,
}
use howm.Protocol.Cbor.Values.{Value, list_of, values_of, pairs_of, pairs_of-entries_of}
use howm.Protocol.Cbor.Scopes.{undecodable}
use howm.Protocol.Cbor.Capabilities.{cap_to_cbor_value, cap_from_cbor_value}
use howm.Protocol.Cbor.Capabilities.RoundTrip.{IsEncodableCap, cap_round_trip}
use howm.Protocol.Cbor.Codec.{Codec}
use howm.Protocol.Cbor.Manifests.{
  manifest_pairs, manifest_to_value, manifest_from_pairs, manifest_from_value, to_cbor, from_cbor,
}

caps_round_trip :
    (cs : List CapabilityDeclaration)
    → All IsEncodableCap cs
    → collect cap_from_cbor_value (list_of (values_of (map cap_to_cbor_value cs))) ≡ ok cs
caps_round_trip [] a = refl
caps_round_trip (c ∷ cs) a = rw (cap_round_trip c a.0, caps_round_trip cs a.1) refl

peer_id_accepted :
    (m : DiscoveryManifest) → IsPeerId m.peer_id → nat_eq (length m.peer_id) peer_id_len ≡ true
peer_id_accepted m h = ground arith

pairs_round_trip :
    (m : DiscoveryManifest)
    → IsPeerId m.peer_id
    → All IsEncodableCap m.capabilities
    → manifest_from_pairs (manifest_pairs m) ≡ ok m
unfolding manifest_from_pairs manifest_pairs
pairs_round_trip m h a = rw (peer_id_accepted m h, caps_round_trip m.capabilities a) refl

pub value_round_trip :
    (m : DiscoveryManifest)
    → IsPeerId m.peer_id
    → All IsEncodableCap m.capabilities
    → manifest_from_value (manifest_to_value m) ≡ ok (sort_capabilities m)
unfolding manifest_from_value manifest_to_value sort_capabilities
value_round_trip m h a =
    ap manifest_from_pairs (pairs_of-entries_of (manifest_pairs (sort_capabilities m)))
    ∙ pairs_round_trip (sort_capabilities m) h
        (All-sort_by cap_name IsEncodableCap m.capabilities a)

-- A manifest with a peer id of 32 bytes and encodable scopes is read back from its bytes, with its
-- capabilities sorted by name.
pub from_cbor-to_cbor :
    (codec : Codec) (m : DiscoveryManifest)
    → IsPeerId m.peer_id
    → All IsEncodableCap m.capabilities
    → from_cbor codec (to_cbor codec m) ≡ ok (sort_capabilities m)
unfolding from_cbor to_cbor
from_cbor-to_cbor codec m h a =
    ap (λ o. ok_or o undecodable >>= manifest_from_value) (codec.round_trip (manifest_to_value m))
    ∙ value_round_trip m h a

manifest_from_pairs-IsPeerId :
    (es : List (Value × Value)) (m : DiscoveryManifest)
    → manifest_from_pairs es ≡ ok m
    → IsPeerId m.peer_id
unfolding manifest_from_pairs
manifest_from_pairs-IsPeerId es m h = ground arith

from_value-IsPeerId :
    (v : Value) (m : DiscoveryManifest) → manifest_from_value v ≡ ok m → IsPeerId m.peer_id
unfolding manifest_from_value
from_value-IsPeerId (Value.map_value es) m h = manifest_from_pairs-IsPeerId (pairs_of es) m h
from_value-IsPeerId _ m h = cc

-- A manifest that is read has a peer id of 32 bytes, whatever the bytes it is read from.
pub from_cbor-IsPeerId :
    (codec : Codec) (b : Bytes) (m : DiscoveryManifest)
    → from_cbor codec b ≡ ok m
    → IsPeerId m.peer_id
unfolding from_cbor
from_cbor-IsPeerId codec b m h =
    let (v, _, read) = ok_of_bind (ok_or (codec.from_bytes b) undecodable) manifest_from_value h in
    from_value-IsPeerId v m read

-- ===== src/Examples/Manifests.antt =====
-- Two peers: both have the heartbeat, and `provider` offers a feed that `reader` consumes.
use howm.Base.{ℕ, true, false, none, some, List, [], ◌∷◌, bytes, Text, lookup, arith}
use howm.Protocol.Role.{provide, consume, both}
use howm.Protocol.Scope.{ScopeParams, uint, default_params, get_ext, as_uint}
use howm.Protocol.Scope.Laws.{IsNumeric}
use howm.Protocol.Manifest.{CapabilityDeclaration, DiscoveryManifest, PeerId}
use howm.Protocol.Negotiation.{TrustGate}

abbrev pub heartbeat : CapabilityDeclaration
heartbeat = record {
  name = bytes "core.session.heartbeat.1";
  role = both;
  is_mutual = true;
  scope = none;
  applicable_scope_keys = none;
}

abbrev pub feed_name : Text
feed_name = bytes "howm.social.feed.1"

abbrev pub feed_scope : ℕ → ScopeParams
feed_scope rate = record { rate_limit = rate; ttl = 3600; extensions = (3, uint 5000) ∷ [] }

abbrev pub provided_feed : CapabilityDeclaration
provided_feed = record {
  name = feed_name;
  role = provide;
  is_mutual = false;
  scope = some (feed_scope 10);
  applicable_scope_keys = some (3 ∷ []);
}

abbrev pub consumed_feed : CapabilityDeclaration
consumed_feed = record {
  name = feed_name;
  role = consume;
  is_mutual = false;
  scope = some (feed_scope 5);
  applicable_scope_keys = none;
}

abbrev pub peer_id_of : ℕ → PeerId
peer_id_of n =
    n ∷ 0 ∷ 0 ∷ 0 ∷ 0 ∷ 0 ∷ 0 ∷ 0 ∷ 0 ∷ 0 ∷ 0 ∷ 0 ∷ 0 ∷ 0 ∷ 0 ∷ 0 ∷ 0 ∷ 0 ∷ 0 ∷ 0 ∷ 0 ∷ 0 ∷ 0 ∷ 0
    ∷ 0 ∷ 0 ∷ 0 ∷ 0 ∷ 0 ∷ 0 ∷ 0 ∷ 0 ∷ []

abbrev pub manifest_of : ℕ → List CapabilityDeclaration → DiscoveryManifest
manifest_of n caps = record {
  protocol_version = 1;
  peer_id = peer_id_of n;
  sequence_num = 1;
  capabilities = caps;
  personal_hash = n ∷ [];
  hash_algorithm = bytes "sha-256";
}

-- Its capabilities are not in the order of their names.
abbrev pub provider : DiscoveryManifest
provider = manifest_of 1 (provided_feed ∷ heartbeat ∷ [])

abbrev pub reader : DiscoveryManifest
reader = manifest_of 2 (heartbeat ∷ consumed_feed ∷ [])

abbrev pub allow_all : TrustGate
allow_all n p = true

abbrev pub allow_none : TrustGate
allow_none n p = false

pub feed_scope-IsNumeric : (rate : ℕ) → IsNumeric (feed_scope rate)
unfolding get_ext lookup as_uint
feed_scope-IsNumeric rate k v h = ground arith

pub default_params-IsNumeric : IsNumeric default_params
unfolding get_ext lookup
default_params-IsNumeric k v h = cc

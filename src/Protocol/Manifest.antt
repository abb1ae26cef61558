-- ===== src/Protocol/Manifest.antt =====
-- node/p2pcd-types/src/lib.rs: capability declarations and the discovery manifest.
use howm.Base.{
  ℕ, ◌≡◌, Bool, Option, List, Text, Bytes, bytes_ord, sort_by, find_by, Distinct, length,
}
use howm.Protocol.Role.{Role}
use howm.Protocol.Scope.{ScopeParams}

abbrev pub protocol_version : ℕ
protocol_version = 1

abbrev pub peer_id_len : ℕ
peer_id_len = 32

-- `[u8; PEER_ID_LEN]`
abbrev pub PeerId : Type 0
PeerId = Bytes

abbrev pub IsPeerId : PeerId → Type 0
IsPeerId p = length p ≡ peer_id_len

pub record CapabilityDeclaration : Type 0 where
  pub name : Text
  pub role : Role
  pub is_mutual : Bool
  pub scope : Option ScopeParams
  pub applicable_scope_keys : Option (List ℕ)

pub record DiscoveryManifest : Type 0 where
  pub protocol_version : ℕ
  pub peer_id : PeerId
  pub sequence_num : ℕ
  pub capabilities : List CapabilityDeclaration
  pub personal_hash : Bytes
  pub hash_algorithm : Text

abbrev pub cap_name : CapabilityDeclaration → Text
cap_name c = c.name

unfoldable pub sort_capabilities : DiscoveryManifest → DiscoveryManifest
sort_capabilities m = record m { capabilities = sort_by cap_name m.capabilities }

-- The first capability of a name, and no name twice.
abbrev pub find_cap : Text → DiscoveryManifest → Option CapabilityDeclaration
find_cap n m = find_by cap_name n m.capabilities

abbrev pub HasDistinctNames : DiscoveryManifest → Type 0
HasDistinctNames m = Distinct cap_name m.capabilities

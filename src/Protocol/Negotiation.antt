-- ===== src/Protocol/Negotiation.antt =====
-- node/p2pcd-types/src/scope.rs: the active set of two manifests, and the deprecated trust policy.
pub mod Members
pub mod Symmetry
pub mod Trust
use howm.Base.{
  Bool, true, false, not, ◌&&◌, Option, none, some, List, [], ◌∷◌, ◌++◌, Text, bytes, bytes_ord,
  ◌==◌, sort, if◌then◌else◌, Map, lookup, contains,
}
use howm.Protocol.Role
use howm.Protocol.Manifest.{PeerId, CapabilityDeclaration, DiscoveryManifest}

abbrev pub heartbeat_name : Text
heartbeat_name = bytes "core.session.heartbeat.1"

-- `trust_gate(capability_name, remote_peer_id)`
abbrev pub TrustGate : Type 0
TrustGate = Text → PeerId → Bool

-- The inner loop: the first remote capability that passes the three tests adds the name and ends
-- the loop.
unfoldable pub scan_remote :
    TrustGate → PeerId → CapabilityDeclaration → List CapabilityDeclaration → List Text → List Text
scan_remote gate peer local [] active = active
scan_remote gate peer local (remote ∷ rest) active =
    let next = scan_remote gate peer local rest active in
    if not (local.name == remote.name)
    then next
    else if not (Role.matches local.role remote.role local.is_mutual remote.is_mutual)
    then next
    else if not (local.name == heartbeat_name) && not (gate local.name peer)
    then next
    else active ++ local.name ∷ []

unfoldable pub scan_local :
    TrustGate
    → PeerId
    → List CapabilityDeclaration
    → List CapabilityDeclaration
    → List Text
    → List Text
unfolding scan_remote
scan_local gate peer [] remotes active = active
scan_local gate peer (local ∷ rest) remotes active =
    scan_local gate peer rest remotes (scan_remote gate peer local remotes active)

unfoldable pub compute_intersection : DiscoveryManifest → DiscoveryManifest → TrustGate → List Text
unfolding scan_local
compute_intersection local remote gate =
    sort (scan_local gate remote.peer_id local.capabilities remote.capabilities [])

pub data ClassificationTier : Type 0 where
  public friends blocked : ClassificationTier

-- The hash map of overrides and the hash set of friends are lists.
pub record TrustPolicy : Type 0 where
  pub default_tier : ClassificationTier
  pub overrides : Map PeerId ClassificationTier
  pub friends : List PeerId

unfoldable pub evaluate_tier : ClassificationTier → List PeerId → PeerId → Bool
evaluate_tier public fs p = true
evaluate_tier friends fs p = contains p fs
evaluate_tier blocked fs p = false

unfoldable pub evaluate : TrustPolicy → PeerId → Bool
unfolding evaluate_tier
evaluate t p = elim (lookup p t.overrides) [
  | some tier ↦ evaluate_tier tier t.friends p
  | none ↦ evaluate_tier t.default_tier t.friends p
]

unfoldable pub compute_intersection_legacy :
    DiscoveryManifest → DiscoveryManifest → Map Text TrustPolicy → List Text
unfolding compute_intersection evaluate
compute_intersection_legacy local remote policies = compute_intersection local remote gate
  where
    gate : TrustGate
    gate name peer = elim (lookup name policies) [
      | some policy ↦ evaluate policy peer
      | none ↦ true
    ]

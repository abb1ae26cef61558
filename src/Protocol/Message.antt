-- ===== src/Protocol/Message.antt =====
-- node/p2pcd-types/src/wire.rs: `ProtocolMessage`.
use howm.Base.{ℕ, Bytes, Text, Option, List, Map}
use howm.Protocol.CloseReason.{CloseReason}
use howm.Protocol.Manifest.{DiscoveryManifest}
use howm.Protocol.Scope.{ScopeParams}

pub data ProtocolMessage : Type 0 where
  offer : DiscoveryManifest → ProtocolMessage
  confirm : Bytes → List Text → Option (Map Text ScopeParams) → ProtocolMessage
  close : Bytes → CloseReason → ProtocolMessage
  ping : ℕ → ProtocolMessage
  pong : ℕ → ProtocolMessage
  capability_msg : ℕ → Bytes → ProtocolMessage

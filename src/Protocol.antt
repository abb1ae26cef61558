-- ===== src/Protocol.antt =====
-- node/p2pcd-types: the data of the protocol, its negotiation and its encoding.
pub mod MessageType
pub mod CloseReason
pub mod Role
pub mod Scope
pub mod Manifest
pub mod Negotiation
pub mod Message
pub mod Cbor

-- ===== src/Protocol/Cbor.antt =====
-- node/p2pcd-types/src/cbor.rs: the encoding as CBOR values. How a value becomes bytes is the
-- business of a library, a parameter in `Messages`.
pub mod Values
pub mod Scopes
pub mod Capabilities
pub mod Codec
pub mod Manifests
pub mod Messages

-- ===== src/Capabilities.antt =====
-- node/p2pcd/src: what runs in an active session: the core capabilities' handlers.
pub mod Payload
pub mod Senders
pub mod Relay
pub mod Stream
pub mod Rpc
pub mod BlobStore
pub mod Blob
pub mod Event

-- ===== src/Examples.antt =====
-- Concrete runs of the models, and the theorems at concrete inputs.
pub mod StackCodec
pub mod Manifests
pub mod Negotiation
pub mod Exchange
pub mod Voice
pub mod Daemon
pub mod Encoding
pub mod Relay
pub mod Streams
pub mod Liveness
pub mod Blobs
pub mod Events

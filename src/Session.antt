-- ===== src/Session.antt =====
-- node/p2pcd/src: the session with one peer, the exchange of offers and confirms (session.rs), and what splits
-- and watches an active session's messages (mux.rs, heartbeat.rs).
pub mod State
pub mod Exchange
pub mod Mux
pub mod Heartbeat

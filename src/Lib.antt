-- ===== src/Lib.antt =====
-- Howm: peers that find each other, negotiate capabilities and hold sessions.
--
-- The model is of the protocol core of the repository, of its heartbeat, of its relay, stream, RPC,
-- blob and event handlers, of the voice capability's rooms and of the daemon's notifications.
--
-- - Base: the shared library: Boolean tests over the native numbers, lists, orders as instances, sorting
--   by a key, association lists for the B-tree maps, results with do blocks, sets as lists.
-- - Protocol: the crate node/p2pcd-types.
--     MessageType, CloseReason, Role, Message   src/wire.rs: the enums, their numbers and the messages
--     Scope                                     src/scope.rs: ScopeValue, ScopeParams and `reconcile`
--     Manifest                                  src/lib.rs: declarations, manifests, `sort_capabilities`
--     Negotiation                               src/scope.rs: `compute_intersection`, the trust policy
--     Cbor                                      src/cbor.rs and src/message_types.rs: encoders, decoders,
--                                               frames and the hash
--   The modules below these hold the proofs.
-- - Session: node/p2pcd/src/session.rs. State is the state machine with `transition`; Exchange is the
--   exchange of OFFER and CONFIRM on both sides and `send_close`. A session is a record that each step
--   takes and gives back with a result, so that an error keeps what was done before it. Mux is
--   node/p2pcd/src/mux.rs with the responder of heartbeat.rs, Heartbeat the loop of the latter.
-- - Capabilities: node/p2pcd/src/capabilities, what runs in an active session. Payload is
--   src/cbor_helpers.rs; Senders is the table of channels that each handler keeps.
--     Relay    relay.rs: Handlers has the three messages, Cleanup what ends by time or with a peer, Runs what
--              several tasks do to one handler. Messages
--              has what the handlers do with the payloads they write; the other modules hold the proofs
--     Stream   stream.rs: Messages has the payloads and what a node sends of its own accord, Handlers the four
--              messages, Cleanup what ends by time or with a peer; the other modules hold the proofs
--     Rpc      rpc.rs, with the request of node/daemon/src/p2pcd/bridge/messaging.rs; Calls holds the proofs
--     Blob     blob.rs: Sending is the provider's side, Receiving the consumer's; the other modules hold the
--              proofs. BlobStore is src/blob_store.rs, with a file system of paths and files
--     Event    event.rs: the subscribers of topics
-- - Voice: capabilities/voice/src. Rooms is the room store of src/state.rs, one function for each method,
--   and the placeholder rooms that src/bridge.rs makes of invitations.
-- - Daemon: node/daemon/src. Notifications is the buffer of notifications and the rate limiter of
--   src/notifications.rs; Rising has what their loops do to lists of rising times, Numbers the numbers of
--   the entries.
-- - Examples: concrete peers, a concrete codec and the theorems at them.
--
-- How the parts interact: a session sends its manifest in an OFFER, computes the active set and the
-- parameters from the manifest that it receives (Negotiation, Scope), sends them in a CONFIRM, and
-- intersects and reconciles with those of the peer's CONFIRM. Messages cross the wire as frames of CBOR. In an
-- active session, a capability's handler gets the messages of its numbers with the peer and the parameters that
-- were agreed; it keeps a table of channels to peers, into which it puts what it sends.
--
-- Conventions. A u64 is a natural number: the code only compares the values it reads, and writes them back.
-- The prefix of a frame is the length modulo 2 ^ 32, in four bytes. Texts are lists of bytes in the order
-- of `String`. A B-tree map is an association list in the order of its keys; the hash sets are lists.
-- The rooms of a store are visited in the order of their ids, and the circuits, streams and transfers of a
-- handler in that of their keys, where the hash map has any order.
-- A handler of a capability is one step: what other tasks do at its await points is not seen, but for the request
-- for a circuit, whose two steps any others may come between (Relay/Runs), and the writers of blobs, which are steps
-- of their own (BlobStore). The handling of an invitation from another node is nothing where it waits for its own
-- lock (Voice/Rooms/Invites). A channel is the list of what was put into it, and never full or closed. Counters that
-- the code adds to are kept modulo 2 ^ 64.
-- All loops are structural recursion, so no fuel is needed.
--
-- Not modelled. ciborium and sha2 are parameters (Protocol.Cbor.Codec), with the round trip of a value as
-- the one law assumed. The transport is the list of messages that arrive, the list of those sent, and a
-- script that says which sends fail. The trust gate and the clock are parameters. Sockets, timers, HTTP,
-- databases and the user interface are left out, and log lines are skipped.
pub mod Base
pub mod Protocol
pub mod Session
pub mod Daemon
pub mod Capabilities
pub mod Voice
pub mod Examples

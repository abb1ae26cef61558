-- ===== src/Capabilities/Relay/Runs.antt =====
-- The runs of a relay's operations by several tasks.
use howm.Base.{
  ℕ, ◌<◌, ◌≡◌, ◌≤◌, none, List, [], ◌∷◌, ◌++◌, Bytes, bytes_ord, nat_ord, remove, length,
}
use howm.Protocol.Manifest.{PeerId}
use howm.Protocol.Cbor.Codec.{Codec}
use howm.Capabilities.Payload.{CapabilityContext}
use howm.Capabilities.Relay.{
  RelayHandler, new_relay, add_peer_sender, remove_peer_sender, set_event_callback, max_circuits,
  initiate_circuit, send_circuit_data, close_endpoint_circuit,
}
use howm.Capabilities.Relay.Handlers.{refusal, put_circuit, relay_on_message}
use howm.Capabilities.Relay.Cleanup.{reap_and_notify, relay_on_deactivated}

-- A request that found room, and whose circuit is not put in yet: its context, its number and its target.
pub record Admitted : Type 0 where
  pub ctx : CapabilityContext
  pub circuit_id : ℕ
  pub target : PeerId

-- The handlers and the admitted requests that a run leads to in which at most `tasks` messages are handled at
-- the same time, and in which no session's parameters allow more circuits than the limit. Between the two steps of
-- a request, there may be any steps of other tasks; so may there be between the removals of circuits in a loop.
pub data Reached (codec : Codec) (limit tasks : ℕ) : List Admitted → RelayHandler → Type 0 where
  start : 1 ≤ tasks → Reached codec limit tasks [] new_relay
  after_add_sender :
      {waiting : List Admitted} {h : RelayHandler} (p : PeerId)
      → Reached codec limit tasks waiting h
      → Reached codec limit tasks waiting (add_peer_sender p h)
  after_remove_sender :
      {waiting : List Admitted} {h : RelayHandler} (p : PeerId)
      → Reached codec limit tasks waiting h
      → Reached codec limit tasks waiting (remove_peer_sender p h)
  after_callback :
      {waiting : List Admitted} {h : RelayHandler}
      → Reached codec limit tasks waiting h
      → Reached codec limit tasks waiting (set_event_callback h)
  after_initiate :
      {waiting : List Admitted} {h : RelayHandler} (relay target : PeerId)
      → Reached codec limit tasks waiting h
      → Reached codec limit tasks waiting (initiate_circuit codec relay target h).0
  after_send :
      {waiting : List Admitted} {h : RelayHandler} (id : ℕ) (contents : Bytes)
      → Reached codec limit tasks waiting h
      → Reached codec limit tasks waiting (send_circuit_data codec id contents h).0
  after_close :
      {waiting : List Admitted} {h : RelayHandler} (id : ℕ)
      → Reached codec limit tasks waiting h
      → Reached codec limit tasks waiting (close_endpoint_circuit codec id h).0
  after_message :
      {waiting : List Admitted} {h : RelayHandler} (now msg_type : ℕ) (ctx : CapabilityContext)
      (payload : Bytes)
      → length waiting < tasks
      → max_circuits ctx.params ≤ limit
      → Reached codec limit tasks waiting h
      → Reached codec limit tasks waiting (relay_on_message codec now msg_type ctx payload h).0
  after_reap :
      {waiting : List Admitted} {h : RelayHandler} (now : ℕ)
      → Reached codec limit tasks waiting h
      → Reached codec limit tasks waiting (reap_and_notify codec now h)
  after_deactivated :
      {waiting : List Admitted} {h : RelayHandler} (ctx : CapabilityContext)
      → Reached codec limit tasks waiting h
      → Reached codec limit tasks waiting (relay_on_deactivated codec ctx h)
  after_removal :
      {waiting : List Admitted} {h : RelayHandler} (id : ℕ)
      → Reached codec limit tasks waiting h
      → Reached codec limit tasks waiting (record h { circuits = remove id h.circuits })
  after_admission :
      {waiting : List Admitted} {h : RelayHandler} (a : Admitted)
      → length waiting < tasks
      → max_circuits a.ctx.params ≤ limit
      → refusal a.ctx a.target h ≡ none
      → Reached codec limit tasks waiting h
      → Reached codec limit tasks (a ∷ waiting) h
  after_insertion :
      (before after : List Admitted) {h : RelayHandler} (now : ℕ) (a : Admitted)
      → Reached codec limit tasks (before ++ a ∷ after) h
      → Reached codec limit tasks
          (before ++ after)
          (put_circuit codec now a.ctx a.circuit_id a.target h)

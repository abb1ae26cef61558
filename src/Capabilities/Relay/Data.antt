-- ===== src/Capabilities/Relay/Data.antt =====
-- The data of a circuit on its way, and what a second opening of its number does to it.
use mathlib.Core.Option
use howm.Base.{
  ℕ, ◌≡◌, ◌<◌, refl, true, false, none, some, Bytes, bytes_ord, nat_ord, ◌==◌, lookup, length,
  is_some, arith,
}
use howm.Protocol.Manifest.{PeerId, IsPeerId}
use howm.Protocol.Scope.{ScopeParams}
use howm.Protocol.Cbor.Codec.{Codec}
use howm.Capabilities.Payload.{CapabilityContext}
use howm.Capabilities.Relay.{
  Circuit, RelayHandler, open_payload, data_payload, max_circuits, is_expired, other_end,
}
use howm.Capabilities.Relay.Handlers.{
  new_circuit, handle_open, handle_data, request_circuit, relay_data,
}
use howm.Capabilities.Relay.Messages.{handle_open-open_payload, handle_data-data_payload}
use howm.Capabilities.Relay.Circuits.{sent_to, requested, from}

module _ (codec : Codec) (id : ℕ) (contents : Bytes) where
  -- Data of a circuit that its sender is no end of is dropped.
  dropped :
      (now : ℕ) (ctx : CapabilityContext) (carol : RelayHandler) (r : Circuit)
      → lookup id carol.circuits ≡ some r
      → is_expired now r ≡ false
      → other_end ctx.peer_id r ≡ none
      → (relay_data codec now ctx id contents carol (lookup id carol.circuits)).peer_senders
        ≡ carol.peer_senders
  dropped now ctx carol r held alive out = rw (held, alive, out) refl

  -- A relay with room that is asked by `p` for a circuit of a number to a peer that it reaches takes the
  -- request even where it holds a circuit of that number: what any other peer than the two new ends sends
  -- under the number at that time, the old circuit's ends among them, goes to nobody.
  pub circuit_taken_over :
      (now : ℕ) (a p t : PeerId) (with_a with_p : ScopeParams) (carol : RelayHandler)
      → IsPeerId t
      → length carol.circuits < max_circuits with_p
      → is_some (sent_to t carol) ≡ true
      → (a == p) ≡ false
      → (a == t) ≡ false
      → let carol1 = (handle_open codec now (from p with_p) (open_payload codec id t) carol).0 in
        let carol2 =
          (handle_data codec now (from a with_a) (data_payload codec id contents) carol1).0 in
        (lookup id carol1.circuits ≡ some (new_circuit now id (from p with_p) t))
        × (carol2.peer_senders ≡ carol1.peer_senders)
  unfolding is_expired other_end
  circuit_taken_over now a p t with_a with_p carol size room known off_p off_t =
      let taken = requested codec now id t (from p with_p) carol size room known in
      let carol1 = request_circuit codec now (from p with_p) id t carol in
      let r = new_circuit now id (from p with_p) t in
      let out : other_end a r ≡ none = rw (off_p, off_t) refl in
      let alive : is_expired now r ≡ false = ground arith in
      rw
        (
          handle_open-open_payload codec now (from p with_p) id carol t,
          handle_data-data_payload codec now (from a with_a) id carol1 contents,
        )
        (taken.1, dropped now (from a with_a) carol1 r taken.1 alive out)

-- ===== src/Capabilities/Relay/Bound.antt =====
-- How many circuits a relay holds over its runs.
use howm.Base.{
  ℕ, ◌+◌, ◌-◌, ◌<◌, ◌≡◌, ◌≤◌, Bool, not, Bool-cases, inl, inr, Option, none, some, List, [], ◌∷◌,
  ◌++◌, Bytes, bytes_ord, nat_ord, map, filter, lookup, remove, nat_eq, IsMap, filter-IsMap,
  insert-IsMap, remove-IsMap, refl, length, length-append, length-filter-le, length-insert-le,
  length-remove-le, Result, ok, err, unwrap_or, arith,
}
use howm.Protocol.Manifest.{PeerId}
use howm.Protocol.Cbor.Values.{Value}
use howm.Protocol.Cbor.Scopes.{CborError}
use howm.Protocol.Cbor.Codec.{Codec}
use howm.Capabilities.Payload.{
  CapabilityContext, decode_payload, cbor_get_int, cbor_get_bytes, with_map,
}
use howm.Capabilities.Relay.{
  Circuit, EndpointCircuit, RelayHandler, add_peer_sender, remove_peer_sender, set_event_callback,
  send_to_peer, close_payload, ttl_expired, max_circuits, initiate_circuit, send_data_on,
  send_circuit_data, close_endpoint, close_endpoint_circuit, is_expired, circuit_open, circuit_data,
  circuit_close, circuit_id_key, target_peer_key, initiator_peer_key, data_key, close_reason_key,
  status_key, normal,
}
use howm.Capabilities.Relay.Handlers.{
  new_circuit, refusal, put_circuit, open_message, handle_open, data_message, handle_data,
  close_message, handle_close, relay_on_message,
}
use howm.Capabilities.Relay.Cleanup.{
  reap_expired_circuits, notify_reaped, reap_and_notify, relay_on_deactivated, involves, ends_of,
}
use howm.Capabilities.Relay.Deactivation.{relay_on_deactivated-circuits}
use howm.Capabilities.Relay.Limit.{Within, open_case-Within, relay_data-Within, relay_close-Within}
use howm.Capabilities.Relay.Runs.{
  Admitted, Reached, start, after_add_sender, after_remove_sender, after_callback, after_initiate,
  after_send, after_close, after_message, after_reap, after_deactivated, after_removal,
  after_admission, after_insertion,
}

module _ (codec : Codec) (limit : ℕ) where
  with_map-Within :
      (h : RelayHandler) (f : List (Value × Value) → RelayHandler)
      (r : Result CborError (List (Value × Value)))
      → Within limit h.circuits
      → ((m : List (Value × Value)) → Within limit (f m).circuits)
      → Within limit (with_map r h f).0.circuits
  with_map-Within h f (err e) w step = w
  with_map-Within h f (ok m) w step = step m

  relay_on_message-Within :
      (now msg_type : ℕ) (ctx : CapabilityContext) (payload : Bytes) (h : RelayHandler)
      → max_circuits ctx.params ≤ limit
      → Within limit h.circuits
      → Within limit (relay_on_message codec now msg_type ctx payload h).0.circuits
  unfolding relay_on_message handle_open handle_data handle_close open_message data_message
      close_message
  relay_on_message-Within now msg_type ctx payload h bound w =
      let read = decode_payload codec payload in
      elim (Bool-cases (nat_eq msg_type circuit_open)) [
        | inl e ↦ rw e (
            with_map-Within h (open_message codec now ctx h) read w (λ m.
              open_case-Within codec limit now ctx (unwrap_or (cbor_get_int m circuit_id_key) 0)
                (unwrap_or (cbor_get_bytes m target_peer_key) []) h
                (cbor_get_bytes m initiator_peer_key) (cbor_get_int m status_key) bound w))
        | inr e ↦ elim (Bool-cases (nat_eq msg_type circuit_data)) [
          | inl d ↦
              rw (e, d)
                (with_map-Within h (data_message codec now ctx h) read w (λ m.
                  relay_data-Within codec limit now ctx
                    (unwrap_or (cbor_get_int m circuit_id_key) 0)
                    (unwrap_or (cbor_get_bytes m data_key) []) h w))
          | inr d ↦ elim (Bool-cases (nat_eq msg_type circuit_close)) [
            | inl c ↦
                rw (e, d, c)
                  (with_map-Within h (close_message codec ctx h) read w (λ m.
                    let id = unwrap_or (cbor_get_int m circuit_id_key) 0 in
                    relay_close-Within codec limit ctx id
                      (unwrap_or (cbor_get_int m close_reason_key) normal) h (lookup id h.circuits)
                      w))
            | inr c ↦ rw (e, d, c) w
          ]
        ]
      ]

module _ (codec : Codec) where
  send_data_on-circuits :
      (id : ℕ) (contents : Bytes) (h : RelayHandler) (ep : Option EndpointCircuit)
      → (send_data_on codec id contents h ep).0.circuits ≡ h.circuits
  unfolding send_to_peer
  send_data_on-circuits id contents h none = refl
  send_data_on-circuits id contents h (some ep) = refl

  close_endpoint-circuits :
      (id : ℕ) (h : RelayHandler) (ep : Option EndpointCircuit)
      → (close_endpoint codec id h ep).0.circuits ≡ h.circuits
  unfolding send_to_peer
  close_endpoint-circuits id h none = refl
  close_endpoint-circuits id h (some ep) = refl

  notify_reaped-circuits :
      (ends : List (PeerId × PeerId × ℕ)) (h : RelayHandler)
      → (notify_reaped codec ends h).circuits ≡ h.circuits
  unfolding notify_reaped send_to_peer
  notify_reaped-circuits [] h = refl
  notify_reaped-circuits ((a, b, id) ∷ more) h = notify_reaped-circuits more (
      send_to_peer b circuit_close (close_payload codec id ttl_expired)
        (send_to_peer a circuit_close (close_payload codec id ttl_expired) h))

-- A number at most once, and as many circuits and admitted requests as the limit and all tasks but one.
abbrev pub Bounded : ℕ → ℕ → List Admitted → RelayHandler → Type 0
Bounded limit tasks waiting h =
    IsMap h.circuits × (length h.circuits + length waiting + 1 ≤ limit + tasks)

module _ (codec : Codec) (limit tasks : ℕ) where
  -- What keeps every bound that is not below the limit keeps this one.
  Within-Bounded :
      (waiting : List Admitted) (h h' : RelayHandler)
      → length waiting < tasks
      → Bounded limit tasks waiting h
      → ((bound : ℕ) → limit ≤ bound → Within bound h.circuits → Within bound h'.circuits)
      → Bounded limit tasks waiting h'
  Within-Bounded waiting h h' free (s, n) step =
      let bound = limit + tasks - (length waiting + 1) in
      let (s', n') = step bound (omega (arith, free)) (s, omega (arith, n)) in
      (s', omega (arith, n', free))

  refusal-none :
      (ctx : CapabilityContext) (t : PeerId) (h : RelayHandler)
      → refusal ctx t h ≡ none
      → length h.circuits < max_circuits ctx.params
  refusal-none ctx t h e = ground arith

  remove-Bounded :
      (waiting : List Admitted) (id : ℕ) (h : RelayHandler)
      → Bounded limit tasks waiting h
      → Bounded limit tasks waiting (record h { circuits = remove id h.circuits })
  remove-Bounded waiting id h (s, n) =
      (remove-IsMap id h.circuits s, omega (arith, n, length-remove-le id h.circuits))

  filter-Bounded :
      (waiting : List Admitted) (test : ℕ × Circuit → Bool) (h h' : RelayHandler)
      → h'.circuits ≡ filter test h.circuits
      → Bounded limit tasks waiting h
      → Bounded limit tasks waiting h'
  filter-Bounded waiting test h h' e (s, n) =
      rw e (filter-IsMap test h.circuits s, omega (arith, n, length-filter-le test h.circuits))

  put_circuit-Bounded :
      (before after : List Admitted) (now : ℕ) (a : Admitted) (h : RelayHandler)
      → Bounded limit tasks (before ++ a ∷ after) h
      → Bounded limit tasks (before ++ after) (put_circuit codec now a.ctx a.circuit_id a.target h)
  unfolding put_circuit
  put_circuit-Bounded before after now a h (s, n) =
      let c = new_circuit now a.circuit_id a.ctx a.target in
      (
        insert-IsMap a.circuit_id c h.circuits s,
        omega (
          arith,
          n,
          length-insert-le a.circuit_id c h.circuits,
          length-append before (a ∷ after),
          length-append before after,
        ),
      )

  -- A relay holds each circuit's number once. If at most the given number of tasks handle messages at the same
  -- time, then in whatever order their steps come, the circuits and the requests that were admitted but whose
  -- circuits are not put in yet are together fewer than the sum of that number and the highest limit among the
  -- sessions' parameters; so with one task, the circuits are never more than that limit.
  pub Reached-Bounded :
      {waiting : List Admitted} {h : RelayHandler}
      → Reached codec limit tasks waiting h
      → Bounded limit tasks waiting h
  unfolding add_peer_sender remove_peer_sender set_event_callback initiate_circuit send_circuit_data
      close_endpoint_circuit reap_and_notify reap_expired_circuits
  Reached-Bounded (start some_task) = (tt, omega (arith, some_task))
  Reached-Bounded (after_add_sender p r) = Reached-Bounded r
  Reached-Bounded (after_remove_sender p r) = Reached-Bounded r
  Reached-Bounded (after_callback r) = Reached-Bounded r
  Reached-Bounded (after_initiate relay target r) = Reached-Bounded r
  Reached-Bounded (after_send {waiting} {h} id contents r) =
      rw (send_data_on-circuits codec id contents h (lookup id h.endpoint_circuits))
        (Reached-Bounded r)
  Reached-Bounded (after_close {waiting} {h} id r) =
      rw (close_endpoint-circuits codec id h (lookup id h.endpoint_circuits)) (Reached-Bounded r)
  Reached-Bounded (after_message {waiting} {h} now msg_type ctx payload free most r) =
      Within-Bounded waiting h (relay_on_message codec now msg_type ctx payload h).0 free
        (Reached-Bounded r)
        (λ bound k w.
          relay_on_message-Within codec bound now msg_type ctx payload h (omega (arith, most, k)) w)
  Reached-Bounded (after_reap {waiting} {h} now r) =
      filter-Bounded waiting (λ (e : ℕ × Circuit). not (is_expired now e.1)) h
        (reap_and_notify codec now h)
        (notify_reaped-circuits codec (map ends_of (filter (λ e. is_expired now e.1) h.circuits))
          (record h { circuits = filter (λ e. not (is_expired now e.1)) h.circuits }))
        (Reached-Bounded r)
  Reached-Bounded (after_deactivated {waiting} {h} ctx r) =
      let w = Reached-Bounded r in
      filter-Bounded waiting (λ (e : ℕ × Circuit). not (involves ctx.peer_id e)) h
        (relay_on_deactivated codec ctx h) (relay_on_deactivated-circuits codec ctx h w.0) w
  Reached-Bounded (after_removal {waiting} {h} id r) =
      remove-Bounded waiting id h (Reached-Bounded r)
  Reached-Bounded (after_admission {waiting} {h} a free most found r) =
      let few = refusal-none a.ctx a.target h found in
      ((Reached-Bounded r).0, omega (arith, few, free, most))
  Reached-Bounded (after_insertion before after {h} now a r) =
      put_circuit-Bounded before after now a h (Reached-Bounded r)

-- ===== src/Session/Exchange/Agreement.antt =====
-- The two ends of an exchange.
use howm.Base.{
  ◌≡◌, refl, sym, ◌∙◌, ap, true, Option, none, some, List, [], ◌∷◌, Text, ok, Map, unwrap_or,
  Result, Bytes,
}
use howm.Protocol.Manifest.{DiscoveryManifest, HasDistinctNames}
use howm.Protocol.Message.{ProtocolMessage, offer, confirm}
use howm.Protocol.Negotiation.{TrustGate, compute_intersection}
use howm.Protocol.Scope.{ScopeParams}
use howm.Session.State.{
  SessionError, peer_visible, Session, Clock, can_transition_to, capability_exchange,
}
use howm.Session.Exchange.{
  intersect_sets, our_confirm, run_initiator_exchange, run_responder_exchange, reconcile_params,
  reconcile_confirm_params, optional, end_state,
}
use howm.Session.Exchange.Sets.{intersect_sets_comm, compute_intersection-NoRepeats}

-- A session whose peer has just become visible, over a connection that delivers the messages given.
abbrev pub ready : Session → List ProtocolMessage → Session
ready s inbox = record s {
  state = peer_visible;
  transport = some (record { incoming = inbox; sent = []; send_fails = [] });
}

abbrev pub sent_by : Session → List ProtocolMessage
sent_by s = elim s.transport [ none ↦ [] | some t ↦ t.sent ]

-- How a run ends that both sides complete.
pub record Completes (r : Session × Result SessionError (Unit {0})) (final : List Text)
    (params : Map Text ScopeParams) (remote : DiscoveryManifest) (messages : List ProtocolMessage)
    : Type 0 where
  pub succeeds : r.1 ≡ ok tt
  pub ends : r.0.state ≡ end_state final
  pub agrees_on : r.0.active_set ≡ final
  pub accepts : r.0.accepted_params ≡ params
  pub knows : r.0.remote_manifest ≡ some remote
  pub sends : sent_by r.0 ≡ messages

end_state_reachable : (xs : List Text) → can_transition_to capability_exchange (end_state xs) ≡ true
unfolding can_transition_to
end_state_reachable [] = refl
end_state_reachable (x ∷ xs) = refl

-- The parameters that a side ends with, from its manifest and what it received.
abbrev pub final_params :
    DiscoveryManifest
    → DiscoveryManifest
    → TrustGate
    → List Text
    → Option (Map Text ScopeParams)
    → Map Text ScopeParams
final_params local remote gate set params =
    let ours = compute_intersection local remote gate in
    reconcile_confirm_params (intersect_sets ours set) (reconcile_params ours local remote)
      (unwrap_or params [])

initiator-Completes :
    (s : Session) (gate : TrustGate) (clock : Clock) (remote : DiscoveryManifest) (hash : Bytes)
    (set : List Text) (params : Option (Map Text ScopeParams))
    → Completes
        (run_initiator_exchange gate clock (ready s (offer remote ∷ confirm hash set params ∷ [])))
        (intersect_sets (compute_intersection s.local_manifest remote gate) set)
        (final_params s.local_manifest remote gate set params)
        remote
        (offer s.local_manifest ∷ our_confirm s.local_manifest remote gate ∷ [])
unfolding run_initiator_exchange
initiator-Completes s gate clock remote hash set params =
    rw
      (end_state_reachable (intersect_sets (compute_intersection s.local_manifest remote gate) set))
      (record {
        succeeds = refl;
        ends = refl;
        agrees_on = refl;
        accepts = refl;
        knows = refl;
        sends = refl;
      })

responder-Completes :
    (s : Session) (gate : TrustGate) (clock : Clock) (remote : DiscoveryManifest) (hash : Bytes)
    (set : List Text) (params : Option (Map Text ScopeParams))
    → Completes
        (run_responder_exchange gate clock (ready s (offer remote ∷ confirm hash set params ∷ [])))
        (intersect_sets (compute_intersection s.local_manifest remote gate) set)
        (final_params s.local_manifest remote gate set params)
        remote
        (offer s.local_manifest ∷ our_confirm s.local_manifest remote gate ∷ [])
unfolding run_responder_exchange
responder-Completes s gate clock remote hash set params =
    rw
      (end_state_reachable (intersect_sets (compute_intersection s.local_manifest remote gate) set))
      (record {
        succeeds = refl;
        ends = refl;
        agrees_on = refl;
        accepts = refl;
        knows = refl;
        sends = refl;
      })

-- The initiator `a` and the responder `b`, each visible to the other, with a transport on which
-- no send fails and on which it receives the other's OFFER and CONFIRM, complete the exchange
-- if each declares no capability name twice: both send an OFFER and a CONFIRM, and both end
-- with the same active set and the same state. The manifests received are any.
pub exchange_agrees :
    (a b : Session) (gate_a gate_b : TrustGate) (clock_a clock_b : Clock)
    (from_a from_b : DiscoveryManifest)
    → HasDistinctNames a.local_manifest
    → HasDistinctNames b.local_manifest
    → let confirm_a = our_confirm a.local_manifest from_b gate_a in
      let confirm_b = our_confirm b.local_manifest from_a gate_b in
      let ra = run_initiator_exchange gate_a clock_a (ready a (offer from_b ∷ confirm_b ∷ [])) in
      let rb = run_responder_exchange gate_b clock_b (ready b (offer from_a ∷ confirm_a ∷ [])) in
      (ra.1 ≡ ok tt)
      × (rb.1 ≡ ok tt)
      × (sent_by ra.0 ≡ offer a.local_manifest ∷ confirm_a ∷ [])
      × (sent_by rb.0 ≡ offer b.local_manifest ∷ confirm_b ∷ [])
      × (ra.0.active_set ≡ rb.0.active_set)
      × (ra.0.state ≡ rb.0.state)
exchange_agrees a b gate_a gate_b clock_a clock_b from_a from_b da db =
    let set_a = compute_intersection a.local_manifest from_b gate_a in
    let set_b = compute_intersection b.local_manifest from_a gate_b in
    let params_a = optional (reconcile_params set_a a.local_manifest from_b) in
    let params_b = optional (reconcile_params set_b b.local_manifest from_a) in
    let ca =
      initiator-Completes a gate_a clock_a from_b b.local_manifest.personal_hash set_b params_b in
    let cb =
      responder-Completes b gate_b clock_b from_a a.local_manifest.personal_hash set_a params_a in
    let same =
      intersect_sets_comm set_a set_b
        (compute_intersection-NoRepeats a.local_manifest from_b gate_a da)
        (compute_intersection-NoRepeats b.local_manifest from_a gate_b db) in
    (
      ca.succeeds,
      cb.succeeds,
      ca.sends,
      cb.sends,
      ca.agrees_on ∙ same ∙ sym cb.agrees_on,
      ca.ends ∙ ap end_state same ∙ sym cb.ends,
    )

-- ===== src/Session/Exchange.antt =====
-- node/p2pcd/src/session.rs: both sides of the exchange, its helpers, and `send_close`.
pub mod Sets
pub mod Agreement
pub mod Outcomes
pub mod Params
use mathlib.Core.Option
use howm.Base.{
  ℕ, Bool, true, false, Option, none, some, List, [], ◌∷◌, ◌++◌, Text, bytes_ord, Map, lookup,
  insert_each, Result, ok, err, unwrap_or, filter, contains, sort, find, ◌==◌,
}
use howm.Protocol.CloseReason.{CloseReason}
use howm.Protocol.Manifest.{PeerId, CapabilityDeclaration, DiscoveryManifest, find_cap}
use howm.Protocol.Message.{ProtocolMessage, offer, confirm, close}
use howm.Protocol.Negotiation.{TrustGate, compute_intersection}
use howm.Protocol.Scope.{ScopeParams, default_params, reconcile}
use howm.Session.State.{
  SessionState, handshake, capability_exchange, active, no_match, closed, Transport, Session,
  SessionError, no_transport, send_failed, recv_failed, unexpected_message, closed_instead, M,
  ◌>>=◌, ◌>>◌, return, fail, Clock, transition,
}

-- `find(|c| &c.name == cap_name).and_then(|c| c.scope.clone()).unwrap_or_default()`
abbrev pub scope_of : Option CapabilityDeclaration → ScopeParams
scope_of none = default_params
scope_of (some c) = unwrap_or c.scope default_params

-- The scopes that the two manifests give a name, reconciled by the first.
abbrev pub reconciled : DiscoveryManifest → DiscoveryManifest → Text → ScopeParams
reconciled local remote n = reconcile (scope_of (find_cap n local)) (scope_of (find_cap n remote))

unfoldable pub reconcile_params :
    List Text → DiscoveryManifest → DiscoveryManifest → Map Text ScopeParams
reconcile_params active_set local remote = insert_each (reconciled local remote) active_set []

-- The parameters of the two CONFIRMs for a name, reconciled by the first.
abbrev pub confirmed : Map Text ScopeParams → Map Text ScopeParams → Text → ScopeParams
confirmed ours theirs n =
    reconcile (unwrap_or (lookup n ours) default_params)
      (unwrap_or (lookup n theirs) default_params)

unfoldable pub reconcile_confirm_params :
    List Text → Map Text ScopeParams → Map Text ScopeParams → Map Text ScopeParams
reconcile_confirm_params final_set ours theirs = insert_each (confirmed ours theirs) final_set []

unfoldable pub intersect_sets : List Text → List Text → List Text
intersect_sets a b = sort (filter (λ n. contains n b) a)

abbrev pub push_sent : ProtocolMessage → List Bool → Transport → M (Unit {0})
push_sent msg [] t s =
    (record s { transport = some (record t { sent = t.sent ++ msg ∷ [] }) }, ok tt)
push_sent msg (false ∷ more) t s = (
  record s { transport = some (record t { sent = t.sent ++ msg ∷ []; send_fails = more }) },
  ok tt,
)
push_sent msg (true ∷ more) t s =
    (record s { transport = some (record t { send_fails = more }) }, err send_failed)

abbrev pub send_on : ProtocolMessage → Option Transport → M (Unit {0})
send_on msg none = fail no_transport
send_on msg (some t) = push_sent msg t.send_fails t

abbrev pub send : ProtocolMessage → M (Unit {0})
send msg s = send_on msg s.transport s

abbrev pub take_incoming : List ProtocolMessage → Transport → M ProtocolMessage
take_incoming [] t s = (s, err recv_failed)
take_incoming (m ∷ rest) t s = (record s { transport = some (record t { incoming = rest }) }, ok m)

abbrev pub recv_on : Option Transport → M ProtocolMessage
recv_on none = fail no_transport
recv_on (some t) = take_incoming t.incoming t

abbrev pub recv : M ProtocolMessage
recv s = recv_on s.transport s

abbrev pub expect_offer : ProtocolMessage → M DiscoveryManifest
expect_offer (offer manifest) = return manifest
expect_offer (close hash reason) = fail (closed_instead reason)
expect_offer _ = fail unexpected_message

unfoldable pub recv_offer : M DiscoveryManifest
recv_offer = recv >>= expect_offer

abbrev pub require_transport : M (Unit {0})
require_transport s = elim s.transport [ none ↦ (s, err no_transport) | some t ↦ (s, ok tt) ]

abbrev pub set_remote : DiscoveryManifest → M (Unit {0})
set_remote m s = (record s { remote_manifest = some m }, ok tt)

-- Parameters are left out of a CONFIRM when there are none.
abbrev pub optional : Map Text ScopeParams → Option (Map Text ScopeParams)
optional [] = none
optional (e ∷ es) = some (e ∷ es)

-- The CONFIRM that a side sends, from its manifest and the one it received.
abbrev pub our_confirm : DiscoveryManifest → DiscoveryManifest → TrustGate → ProtocolMessage
our_confirm local remote gate =
    let ours = compute_intersection local remote gate in
    confirm local.personal_hash ours (optional (reconcile_params ours local remote))

abbrev pub end_state : List Text → SessionState
end_state [] = no_match
end_state (n ∷ ns) = active

unfoldable pub finalize_session : Clock → List Text → Map Text ScopeParams → M (Unit {0})
unfolding transition
finalize_session clock final_set final_params s =
    transition clock (end_state final_set)
      (record s { active_set = final_set; accepted_params = final_params })

-- The answer to our CONFIRM: their set and parameters, or the reason of a CLOSE.
abbrev pub expect_confirm :
    ProtocolMessage → M (Result CloseReason (List Text × Map Text ScopeParams))
expect_confirm (confirm hash set params) = return (ok (set, unwrap_or params []))
expect_confirm (close hash reason) = return (err reason)
expect_confirm _ = fail unexpected_message

-- The end of both exchanges, with our set and parameters.
abbrev pub conclude :
    Clock
    → List Text
    → Map Text ScopeParams
    → Result CloseReason (List Text × Map Text ScopeParams)
    → M (Unit {0})
conclude clock ours our_params (ok (theirs, their_params)) =
    let final_set = intersect_sets ours theirs in
    finalize_session clock final_set (reconcile_confirm_params final_set our_params their_params)
conclude clock ours our_params (err reason) = transition clock (closed reason)

-- The exchange behind the two transitions.
unfoldable pub initiator_body : TrustGate → Clock → DiscoveryManifest → M (Unit {0})
unfolding transition recv_offer finalize_session
initiator_body gate clock local = do
  require_transport
  send (offer local)
  remote ← recv_offer
  let ours = compute_intersection local remote gate
  send (our_confirm local remote gate)
  outcome ← recv >>= expect_confirm
  set_remote remote
  conclude clock ours (reconcile_params ours local remote) outcome

unfoldable pub initiator_steps : TrustGate → Clock → DiscoveryManifest → M (Unit {0})
unfolding initiator_body
initiator_steps gate clock local = do
  transition clock handshake
  transition clock capability_exchange
  initiator_body gate clock local

unfoldable pub run_initiator_exchange : TrustGate → Clock → M (Unit {0})
unfolding initiator_steps
run_initiator_exchange gate clock s = initiator_steps gate clock s.local_manifest s

-- The responder waits for the peer's CONFIRM before it sends its own, and sends none after a CLOSE.
abbrev pub answer :
    TrustGate
    → Clock
    → DiscoveryManifest
    → DiscoveryManifest
    → Result CloseReason (List Text × Map Text ScopeParams)
    → M (Unit {0})
answer gate clock local remote (err reason) = do set_remote remote; transition clock (closed reason)
answer gate clock local remote (ok theirs) = do
  let ours = compute_intersection local remote gate
  send (our_confirm local remote gate)
  set_remote remote
  conclude clock ours (reconcile_params ours local remote) (ok theirs)

unfoldable pub responder_body : TrustGate → Clock → DiscoveryManifest → M (Unit {0})
unfolding transition recv_offer finalize_session
responder_body gate clock local = do
  require_transport
  remote ← recv_offer
  send (offer local)
  outcome ← recv >>= expect_confirm
  answer gate clock local remote outcome

unfoldable pub responder_steps : TrustGate → Clock → DiscoveryManifest → M (Unit {0})
unfolding responder_body
responder_steps gate clock local = do
  transition clock handshake
  transition clock capability_exchange
  responder_body gate clock local

unfoldable pub run_responder_exchange : TrustGate → Clock → M (Unit {0})
unfolding responder_steps
run_responder_exchange gate clock s = responder_steps gate clock s.local_manifest s

-- `let _ = transport.send(..)`: a failed send is forgotten.
abbrev pub best_effort : CloseReason → Option Transport → M (Unit {0})
best_effort reason none s = (s, ok tt)
best_effort reason (some t) s = ((send (close s.local_manifest.personal_hash reason) s).0, ok tt)

unfoldable pub send_close : CloseReason → Clock → M (Unit {0})
unfolding transition
send_close reason clock s = (best_effort reason s.transport >> transition clock (closed reason)) s

-- ===== src/Session/Exchange/Outcomes.antt =====
-- How an exchange can end, whatever the connection delivers.
use howm.Base.{
  ◌≡◌, ◌≢◌, ◌⊎◌, inl, inr, refl, Bool, true, false, Option, none, some, List, [], ◌∷◌, Text, Result,
  ok, err, Map,
}
use howm.Protocol.CloseReason.{CloseReason}
use howm.Protocol.Manifest.{DiscoveryManifest}
use howm.Protocol.Message.{ProtocolMessage, offer, confirm, close}
use howm.Protocol.Negotiation.{TrustGate, compute_intersection}
use howm.Protocol.Scope.{ScopeParams}
use howm.Session.State.{
  SessionError, Session, Transport, Clock, M, ◌>>=◌, and_then, transition, peer_visible,
  capability_exchange, active, no_match, closed,
}
use howm.Session.Exchange.{
  run_initiator_exchange, run_responder_exchange, initiator_steps, responder_steps, initiator_body,
  responder_body, send, recv, push_sent, send_on, take_incoming, recv_on, expect_offer, recv_offer,
  require_transport, set_remote, our_confirm, expect_confirm, conclude, answer, finalize_session,
  reconcile_params, intersect_sets, reconcile_confirm_params,
}

-- A finished exchange is active with a nonempty set, has an empty set, or is closed.
abbrev pub IsFinished : Session → Type 0
IsFinished s =
    ((s.state ≡ active) × (s.active_set ≢ []))
    ⊎ ((s.state ≡ no_match) × (s.active_set ≡ []))
    ⊎ ((r : CloseReason) × (s.state ≡ closed r))

-- A success is finished, and an error leaves the session in the exchange.
abbrev pub Ended : Session × Result SessionError (Unit {0}) → Type 0
Ended (s, ok a) = IsFinished s
Ended (s, err e) = s.state ≡ capability_exchange

abbrev Stays : {A : Type 0} → M A → Type 0
Stays m = (s : Session) → s.state ≡ capability_exchange → (m s).0.state ≡ capability_exchange

record Finishes (m : M (Unit {0})) : Type 0 where
  run : (s : Session) → s.state ≡ capability_exchange → Ended (m s)

and_then-Ended :
    {A : Type 0} (f : A → M (Unit {0})) (r : Session × Result SessionError A)
    → r.0.state ≡ capability_exchange
    → ((a : A) → Finishes (f a))
    → Ended (and_then f r)
and_then-Ended f (s, ok a) h g = (g a).run s h
and_then-Ended f (s, err e) h g = h

then-Finishes :
    {A : Type 0} (m : M A) (f : A → M (Unit {0}))
    → Stays m
    → ((a : A) → Finishes (f a))
    → Finishes (m >>= f)
then-Finishes m f keep g = record { run = λ s h. and_then-Ended f (m s) (keep s h) g }

and_then-Stays :
    {A B : Type 0} (f : A → M B) (r : Session × Result SessionError A)
    → r.0.state ≡ capability_exchange
    → ((a : A) → Stays (f a))
    → (and_then f r).0.state ≡ capability_exchange
and_then-Stays f (s, ok a) h g = g a s h
and_then-Stays f (s, err e) h g = h

push_sent-Stays :
    (msg : ProtocolMessage) (fs : List Bool) (t : Transport) → Stays (push_sent msg fs t)
push_sent-Stays msg [] t s h = h
push_sent-Stays msg (false ∷ fs) t s h = h
push_sent-Stays msg (true ∷ fs) t s h = h

send_on-Stays : (msg : ProtocolMessage) (o : Option Transport) → Stays (send_on msg o)
send_on-Stays msg none s h = h
send_on-Stays msg (some t) s h = push_sent-Stays msg t.send_fails t s h

send-Stays : (msg : ProtocolMessage) → Stays (send msg)
send-Stays msg s h = send_on-Stays msg s.transport s h

take_incoming-Stays : (ms : List ProtocolMessage) (t : Transport) → Stays (take_incoming ms t)
take_incoming-Stays [] t s h = h
take_incoming-Stays (m ∷ ms) t s h = h

recv_on-Stays : (o : Option Transport) → Stays (recv_on o)
recv_on-Stays none s h = h
recv_on-Stays (some t) s h = take_incoming-Stays t.incoming t s h

recv-Stays : Stays recv
recv-Stays s h = recv_on-Stays s.transport s h

expect_offer-Stays : (m : ProtocolMessage) → Stays (expect_offer m)
expect_offer-Stays (offer m) s h = h
expect_offer-Stays (close p r) s h = h
expect_offer-Stays _ s h = h

recv_offer-Stays : Stays recv_offer
unfolding recv_offer
recv_offer-Stays s h = and_then-Stays expect_offer (recv s) (recv-Stays s h) expect_offer-Stays

expect_confirm-Stays : (m : ProtocolMessage) → Stays (expect_confirm m)
expect_confirm-Stays (confirm p q r) s h = h
expect_confirm-Stays (close p r) s h = h
expect_confirm-Stays _ s h = h

require_transport-Stays : Stays require_transport
require_transport-Stays s h = by_transport s.transport
  where
    by_transport :
        (o : Option Transport)
        → (let r : Session × Result SessionError (Unit {0}) = elim o [
          | none ↦ (s, err SessionError.no_transport)
          | some t ↦ (s, ok tt)
        ] in
            r.0.state)
          ≡ capability_exchange
    by_transport none = h
    by_transport (some t) = h

finalize-Finishes :
    (clock : Clock) (set : List Text) (params : Map Text ScopeParams)
    → Finishes (finalize_session clock set params)
unfolding finalize_session transition
finalize-Finishes clock [] params = record { run = λ s h. rw h (inr (inl (refl, refl))) }
finalize-Finishes clock (n ∷ ns) params = record { run = λ s h. rw h (inl (refl, λ e. cc)) }

transition_closed-Finishes :
    (clock : Clock) (reason : CloseReason) → Finishes (transition clock (closed reason))
unfolding transition
transition_closed-Finishes clock reason = record { run = λ s h. rw h (inr (inr (reason, refl))) }

conclude-Finishes :
    (clock : Clock) (ours : List Text) (params : Map Text ScopeParams)
    (outcome : Result CloseReason (List Text × Map Text ScopeParams))
    → Finishes (conclude clock ours params outcome)
conclude-Finishes clock ours params (ok (theirs, their_params)) =
    let final_set = intersect_sets ours theirs in
    finalize-Finishes clock final_set (reconcile_confirm_params final_set params their_params)
conclude-Finishes clock ours params (err reason) = transition_closed-Finishes clock reason

set_remote-Finishes :
    (m : DiscoveryManifest) (next : M (Unit {0}))
    → Finishes next
    → Finishes (set_remote m >>= λ _. next)
set_remote-Finishes m next f = then-Finishes (set_remote m) (λ _. next) (λ s h. h) (λ _. f)

answer-Finishes :
    (gate : TrustGate) (clock : Clock) (local remote : DiscoveryManifest)
    (outcome : Result CloseReason (List Text × Map Text ScopeParams))
    → Finishes (answer gate clock local remote outcome)
answer-Finishes gate clock local remote (ok theirs) =
    let ours = compute_intersection local remote gate in
    let end = conclude clock ours (reconcile_params ours local remote) (ok theirs) in
    then-Finishes (send (our_confirm local remote gate)) (λ _. set_remote remote >>= λ _. end)
      (send-Stays (our_confirm local remote gate))
      λ _.
        set_remote-Finishes remote end
          (conclude-Finishes clock ours (reconcile_params ours local remote) (ok theirs))
answer-Finishes gate clock local remote (err reason) =
    set_remote-Finishes remote (transition clock (closed reason))
      (transition_closed-Finishes clock reason)

recv_confirm-Stays : Stays (recv >>= expect_confirm)
recv_confirm-Stays s h =
    and_then-Stays expect_confirm (recv s) (recv-Stays s h) expect_confirm-Stays

initiator_body-Finishes :
    (gate : TrustGate) (clock : Clock) (local : DiscoveryManifest)
    → Finishes (initiator_body gate clock local)
unfolding initiator_body
initiator_body-Finishes gate clock local =
    then-Finishes require_transport _ require_transport-Stays λ _.
      then-Finishes (send (offer local)) _ (send-Stays (offer local)) λ _.
        then-Finishes recv_offer _ recv_offer-Stays λ remote.
          let ours = compute_intersection local remote gate in
          then-Finishes (send (our_confirm local remote gate)) _
            (send-Stays (our_confirm local remote gate))
            λ _. then-Finishes (recv >>= expect_confirm) _ recv_confirm-Stays λ outcome.
              set_remote-Finishes remote _
                (conclude-Finishes clock ours (reconcile_params ours local remote) outcome)

responder_body-Finishes :
    (gate : TrustGate) (clock : Clock) (local : DiscoveryManifest)
    → Finishes (responder_body gate clock local)
unfolding responder_body
responder_body-Finishes gate clock local =
    then-Finishes require_transport _ require_transport-Stays λ _.
      then-Finishes recv_offer _ recv_offer-Stays λ remote.
        then-Finishes (send (offer local)) _ (send-Stays (offer local)) λ _.
          then-Finishes (recv >>= expect_confirm) _ recv_confirm-Stays
            λ outcome. answer-Finishes gate clock local remote outcome

-- From a visible peer, whatever arrives and whichever send fails: an initiator's exchange that
-- succeeds ends active with a nonempty active set, without a match with an empty one, or
-- closed; one that fails leaves the session in the exchange. So none ends denied.
pub initiator-Ended :
    (s : Session) (gate : TrustGate) (clock : Clock)
    → s.state ≡ peer_visible
    → Ended (run_initiator_exchange gate clock s)
unfolding run_initiator_exchange initiator_steps transition
initiator-Ended s gate clock h =
    rw h ((initiator_body-Finishes gate clock s.local_manifest).run _ refl)

-- From a visible peer, whatever arrives and whichever send fails: a responder's exchange that
-- succeeds ends active with a nonempty active set, without a match with an empty one, or
-- closed; one that fails leaves the session in the exchange. So none ends denied.
pub responder-Ended :
    (s : Session) (gate : TrustGate) (clock : Clock)
    → s.state ≡ peer_visible
    → Ended (run_responder_exchange gate clock s)
unfolding run_responder_exchange responder_steps transition
responder-Ended s gate clock h =
    rw h ((responder_body-Finishes gate clock s.local_manifest).run _ refl)

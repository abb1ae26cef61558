-- ===== src/Session/State.antt =====
-- node/p2pcd/src/session.rs: the states of a session, its record, and `transition`.
use howm.Base.{ℕ, Bool, true, false, Option, none, List, [], Text, Map, Result, ok, err}
use howm.Protocol.CloseReason.{CloseReason}
use howm.Protocol.Manifest.{PeerId, DiscoveryManifest}
use howm.Protocol.Message.{ProtocolMessage}
use howm.Protocol.Scope.{ScopeParams}

-- `None` of the source is `no_match`.
pub data SessionState : Type 0 where
  peer_visible handshake capability_exchange active no_match denied : SessionState
  closed : CloseReason → SessionState

unfoldable pub is_terminal : SessionState → Bool
is_terminal (closed r) = true
is_terminal _ = false

unfoldable pub has_transport : SessionState → Bool
has_transport peer_visible = false
has_transport (closed r) = false
has_transport _ = true

unfoldable pub can_transition_to : SessionState → SessionState → Bool
can_transition_to peer_visible handshake = true
can_transition_to peer_visible (closed r) = true
can_transition_to handshake capability_exchange = true
can_transition_to handshake (closed r) = true
can_transition_to capability_exchange active = true
can_transition_to capability_exchange no_match = true
can_transition_to capability_exchange denied = true
can_transition_to capability_exchange (closed r) = true
can_transition_to active (closed r) = true
can_transition_to no_match (closed r) = true
can_transition_to denied (closed r) = true
can_transition_to (closed r) peer_visible = true
can_transition_to _ _ = false

-- The connection as the session sees it: the messages that will arrive before it breaks, those sent
-- so far, and for each send to come whether it fails (none fails behind the end of the list).
pub record Transport : Type 0 where
  pub incoming : List ProtocolMessage
  pub sent : List ProtocolMessage
  pub send_fails : List Bool

pub record Session : Type 0 where
  pub remote_peer_id : PeerId
  pub state : SessionState
  pub transport : Option Transport
  pub local_manifest : DiscoveryManifest
  pub remote_manifest : Option DiscoveryManifest
  pub active_set : List Text
  pub accepted_params : Map Text ScopeParams
  pub created_at : ℕ
  pub last_activity : ℕ

pub data SessionError : Type 0 where
  illegal_transition : SessionState → SessionState → SessionError
  no_transport send_failed recv_failed unexpected_message : SessionError
  closed_instead : CloseReason → SessionError

-- A method leaves a session and a result; an error leaves what was changed before it.
abbrev pub M : Type 0 → Type 0
M A = Session → Session × Result SessionError A

abbrev pub and_then :
    {A B : Type 0} → (A → M B) → Session × Result SessionError A → Session × Result SessionError B
and_then f (s, ok a) = f a s
and_then f (s, err e) = (s, err e)

infixl 5 ◌>>◌
infixl 5 ◌>>=◌
abbrev pub ◌>>=◌ : {A B : Type 0} → M A → (A → M B) → M B
◌>>=◌ method rest s = and_then rest (method s)

abbrev pub ◌>>◌ : {B : Type 0} → M (Unit {0}) → M B → M B
first >> second = first >>= λ _. second

abbrev pub return : {A : Type 0} → A → M A
return a s = (s, ok a)

abbrev pub fail : {A : Type 0} → SessionError → M A
fail e s = (s, err e)

-- What `unix_now` reads when the session enters a state.
abbrev pub Clock : Type 0
Clock = SessionState → ℕ

unfoldable pub new_session : ℕ → PeerId → DiscoveryManifest → Session
new_session now peer manifest = record {
  remote_peer_id = peer;
  state = peer_visible;
  transport = none;
  local_manifest = manifest;
  remote_manifest = none;
  active_set = [];
  accepted_params = [];
  created_at = now;
  last_activity = now;
}

abbrev pub enter : Bool → Clock → SessionState → M (Unit {0})
enter true clock next s = (record s { state = next; last_activity = clock next }, ok tt)
enter false clock next s = (s, err (illegal_transition s.state next))

unfoldable pub transition : Clock → SessionState → M (Unit {0})
unfolding can_transition_to
transition clock next s = enter (can_transition_to s.state next) clock next s

-- ===== src/Session/Heartbeat.antt =====
-- node/p2pcd/src/heartbeat.rs: the loop that sends PINGs and waits for their PONGs. A round says what the
-- loop meets between two of its sleeps.
pub mod Liveness
use howm.Base.{
  ℕ, ◌+◌, ◌-◌, ◌<◌, ◌≡◌, refl, ap, ◌∙◌, sym, Bool, true, false, not, List, [], ◌∷◌, ◌++◌, Option,
  none, some, nat_eq, leb, if◌then◌else◌,
}
use howm.Protocol.Manifest.{PeerId}
use howm.Protocol.Message.{ProtocolMessage, ping, pong}

pub data HeartbeatEvent : Type 0 where
  answered : PeerId → ℕ → HeartbeatEvent
  timed_out : PeerId → HeartbeatEvent

abbrev pub default_interval_ms : ℕ
default_interval_ms = 5000

abbrev pub default_timeout_ms : ℕ
default_timeout_ms = 15000

abbrev pub max_missed_pings : ℕ
max_missed_pings = 3

-- The time of the PING; whether the transport takes it; what comes in on the channel of PONGs before the PONG or
-- the end of the wait; whether the channel closes within the wait; and the time of the PONG.
pub record Round : Type 0 where
  pub ts : ℕ
  pub sends : Bool
  pub arrived : List ProtocolMessage
  pub closes : Bool
  pub now : ℕ

-- The loop's state; `inbox` is what it has not taken from the channel yet.
pub record HeartbeatManager : Type 0 where
  pub peer_id : PeerId
  pub missed : ℕ
  pub inbox : List ProtocolMessage
  pub pings : List ProtocolMessage
  pub events : List HeartbeatEvent
  pub returned : Bool

abbrev pub new_manager : PeerId → HeartbeatManager
new_manager p = record {
  peer_id = p;
  missed = 0;
  inbox = [];
  pings = [];
  events = [];
  returned = false;
}

-- How the wait for a PONG ends, with what is left in the channel.
pub data Wait : Type 0 where
  matched : List ProtocolMessage → Wait
  channel_closed : Wait
  expired : Wait

abbrev pub is_pong_of : ℕ → ProtocolMessage → Bool
is_pong_of ts (pong t) = nat_eq t ts
is_pong_of ts _ = false

unfoldable pub recv_pong : ℕ → Bool → List ProtocolMessage → Wait
recv_pong ts closes [] = if closes then channel_closed else expired
recv_pong ts closes (m ∷ ms) = if is_pong_of ts m then matched ms else recv_pong ts closes ms

-- The peer is gone.
abbrev pub give_up : HeartbeatManager → HeartbeatManager
give_up h = record h { events = h.events ++ timed_out h.peer_id ∷ []; returned = true }

abbrev pub after_wait : Round → HeartbeatManager → Wait → HeartbeatManager
after_wait r h (matched rest) = record h {
  missed = 0;
  inbox = rest;
  events = h.events ++ answered h.peer_id (r.now - r.ts) ∷ [];
}
after_wait r h channel_closed = give_up (record h { inbox = [] })
after_wait r h expired =
    let h' : HeartbeatManager = record h { missed = h.missed + 1; inbox = [] } in
    if leb max_missed_pings (h.missed + 1) then give_up h' else h'

-- One turn of the loop.
unfoldable pub beat : Round → HeartbeatManager → HeartbeatManager
unfolding recv_pong
beat r h =
    if h.returned
    then h
    else if not r.sends
    then give_up h
    else after_wait r (record h { pings = h.pings ++ ping r.ts ∷ [] })
        (recv_pong r.ts r.closes (h.inbox ++ r.arrived))

unfoldable pub run : List Round → HeartbeatManager → HeartbeatManager
unfolding beat
run [] h = h
run (r ∷ rs) h = run rs (beat r h)

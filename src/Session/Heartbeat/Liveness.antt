-- ===== src/Session/Heartbeat/Liveness.antt =====
-- When the heartbeat takes a peer for gone.
use howm.Base.{
  ℕ, ◌+◌, ◌-◌, ◌<◌, ◌≤◌, ◌≡◌, refl, ap, ◌∙◌, sym, Bool, true, false, ◌||◌, ◌⊎◌, Bool-cases, inl,
  inr, List, [], ◌∷◌, ◌++◌, append_assoc, append-nil, map, any, All, All-mono, length, leb,
  if◌then◌else◌, arith,
}
use howm.Protocol.Manifest.{PeerId}
use howm.Protocol.Message.{ProtocolMessage}
use howm.Session.Heartbeat.{
  HeartbeatEvent, answered, timed_out, max_missed_pings, Round, HeartbeatManager, matched,
  channel_closed, expired, is_pong_of, recv_pong, beat, run,
}

any-append :
    (p : ProtocolMessage → Bool) (xs ys : List ProtocolMessage)
    → any p (xs ++ ys) ≡ (any p xs || any p ys)
any-append p [] ys = refl
any-append p (x ∷ xs) ys = ground (arith, any-append p xs ys)

-- A run of no PONG.
recv_pong_none :
    (ts : ℕ) (closes : Bool) (ms : List ProtocolMessage)
    → any (is_pong_of ts) ms ≡ false
    → recv_pong ts closes ms ≡ (if closes then channel_closed else expired)
unfolding recv_pong
recv_pong_none ts closes [] e = refl
recv_pong_none ts closes (m ∷ ms) e = elim (Bool-cases (is_pong_of ts m)) [
  | inl h ↦ absurd (ground arith)
  | inr h ↦ rw h (recv_pong_none ts closes ms (ground arith))
]

-- What is left after the first PONG.
abbrev pub rest_after : ℕ → List ProtocolMessage → List ProtocolMessage
rest_after ts [] = []
rest_after ts (m ∷ ms) = if is_pong_of ts m then ms else rest_after ts ms

recv_pong_some :
    (ts : ℕ) (closes : Bool) (ms : List ProtocolMessage)
    → any (is_pong_of ts) ms ≡ true
    → recv_pong ts closes ms ≡ matched (rest_after ts ms)
unfolding recv_pong
recv_pong_some ts closes [] e = absurd (ground arith)
recv_pong_some ts closes (m ∷ ms) e = elim (Bool-cases (is_pong_of ts m)) [
  | inl h ↦ rw h refl
  | inr h ↦ rw h (recv_pong_some ts closes ms (ground arith))
]

beat_returned : (r : Round) (h : HeartbeatManager) → h.returned ≡ true → beat r h ≡ h
unfolding beat
beat_returned r h e = rw e refl

-- The loop has returned, and the last it told is that the peer timed out.
abbrev pub GivenUp : HeartbeatManager → HeartbeatManager → Type 0
GivenUp h h' = (h'.returned ≡ true) × (h'.events ≡ h.events ++ timed_out h.peer_id ∷ [])

-- A round without the PONG of its PING.
abbrev pub Unanswered : HeartbeatManager → Round → Type 0
Unanswered h r = any (is_pong_of r.ts) (h.inbox ++ r.arrived) ≡ false

-- The loop has given the peer up, or has missed one more, told nothing and taken all from the channel.
silent_beat :
    (r : Round) (h : HeartbeatManager)
    → h.returned ≡ false
    → Unanswered h r
    → let h' = beat r h in
      GivenUp h h'
      ⊎ ((h'.returned ≡ false)
          × (h'.missed ≡ h.missed + 1)
          × (h'.inbox ≡ [])
          × (h'.peer_id ≡ h.peer_id)
          × (h'.events ≡ h.events)
          × (h.missed + 1 < max_missed_pings))
unfolding beat
silent_beat r h e quiet =
    let waited = recv_pong_none r.ts r.closes (h.inbox ++ r.arrived) quiet in
    elim (Bool-cases r.sends) [
      | inr s ↦ inl (rw (e, s) (refl, refl))
      | inl s ↦ elim (Bool-cases r.closes) [
        | inl c ↦ inl (rw (e, s, waited, c) (refl, refl))
        | inr c ↦ elim (Bool-cases (leb max_missed_pings (h.missed + 1))) [
          | inl l ↦ inl (rw (e, s, waited, c, l) (refl, refl))
          | inr l ↦ inr (rw (e, s, waited, c, l) (refl, refl, refl, refl, refl, ground arith))
        ]
      ]
    ]

run_returned : (rs : List Round) (h : HeartbeatManager) → h.returned ≡ true → run rs h ≡ h
unfolding run
run_returned [] h e = refl
run_returned (r ∷ rs) h e = ap (run rs) (beat_returned r h e) ∙ run_returned rs h e

-- A peer whose PONGs stay away is taken for gone: within as many such rounds in a row as are left of three, the
-- loop of a running heartbeat returns, and it tells once that the peer timed out and nothing else, whether the
-- PINGs are lost, refused by the transport or the channel closes.
pub silent_peer_detected :
    (rs : List Round) (h : HeartbeatManager)
    → h.returned ≡ false
    → All (Unanswered h) rs
    → max_missed_pings ≤ length rs + h.missed
    → h.missed < max_missed_pings
    → GivenUp h (run rs h)
unfolding run
silent_peer_detected [] h running quiet enough few = absurd (omega arith)
silent_peer_detected (r ∷ rs) h running quiet enough few = elim (silent_beat r h running quiet.0) [
  | inl (e, told) ↦ rw (run_returned rs (beat r h) e) (e, told)
  | inr (on, m, i, p, told, l) ↦
      let later : All (Unanswered (beat r h)) rs =
        All-mono {P = Unanswered h} (λ x k. still i x k) rs quiet.1 in
      let (e, last) = silent_peer_detected rs (beat r h) on later (ground arith) (ground arith) in
      (e, last ∙ rw (told, p) refl)
]
  where
    still : (beat r h).inbox ≡ [] → (x : Round) → Unanswered h x → Unanswered (beat r h) x
    still i x k = rw i (ground (arith, any-append (is_pong_of x.ts) h.inbox x.arrived))

-- A round whose PING is sent and whose PONG comes in in time.
abbrev pub InTime : Round → Type 0
InTime r = (r.sends ≡ true) × (any (is_pong_of r.ts) r.arrived ≡ true)

abbrev pub event_of : PeerId → Round → HeartbeatEvent
event_of p r = answered p (r.now - r.ts)

answered_beat :
    (r : Round) (h : HeartbeatManager)
    → h.returned ≡ false
    → InTime r
    → let h' = beat r h in
      (h'.returned ≡ false)
      × (h'.missed ≡ 0)
      × (h'.peer_id ≡ h.peer_id)
      × (h'.events ≡ h.events ++ event_of h.peer_id r ∷ [])
unfolding beat
answered_beat r h running (sent, came) =
    rw (running, sent, recv_pong_some r.ts r.closes (h.inbox ++ r.arrived) here)
      (refl, refl, refl, refl)
  where
    here : any (is_pong_of r.ts) (h.inbox ++ r.arrived) ≡ true
    here = ground (arith, any-append (is_pong_of r.ts) h.inbox r.arrived)

-- A peer that answers each PING in time is never taken for gone: the loop goes on, and reports each round
-- trip, in order, and nothing else.
pub answering_peer_kept :
    (rs : List Round) (h : HeartbeatManager)
    → h.returned ≡ false
    → All InTime rs
    → ((run rs h).returned ≡ false) × ((run rs h).events ≡ h.events ++ map (event_of h.peer_id) rs)
unfolding run
answering_peer_kept [] h running answers = (running, sym (append-nil h.events))
answering_peer_kept (r ∷ rs) h running answers =
    let (on, none_missed, same, told) = answered_beat r h running answers.0 in
    let (still, rest) = answering_peer_kept rs (beat r h) on answers.1 in
    (
      still,
      rest
          ∙ rw (same, told)
              (append_assoc h.events (event_of h.peer_id r ∷ []) (map (event_of h.peer_id) rs)),
    )

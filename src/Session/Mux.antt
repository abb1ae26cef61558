-- ===== src/Session/Mux.antt =====
-- node/p2pcd/src/mux.rs, the task that splits what comes in on a session's transport, and the responder of
-- node/p2pcd/src/heartbeat.rs, which answers the peer's PINGs.
use howm.Base.{
  ◌≡◌, refl, ap, ◌∙◌, Bool, true, false, List, [], ◌∷◌, ◌++◌, append_assoc, append-nil, filter,
  filter_map, Option, none, some, if◌then◌else◌,
}
use howm.Protocol.Message.{ProtocolMessage, offer, confirm, close, ping, pong, capability_msg}

-- The two channels are what was put into them; a channel is closed when its reader is gone.
pub record SessionMux : Type 0 where
  pub heartbeat : List ProtocolMessage
  pub capability : List ProtocolMessage
  pub heartbeat_closed : Bool
  pub capability_closed : Bool
  pub ended : Bool

-- The mux of a new session.
abbrev pub build_session_mux : SessionMux
build_session_mux = record {
  heartbeat = [];
  capability = [];
  heartbeat_closed = false;
  capability_closed = false;
  ended = false;
}

abbrev pub to_heartbeat : ProtocolMessage → SessionMux → SessionMux
to_heartbeat m s =
    if s.heartbeat_closed
    then record s { ended = true }
    else record s { heartbeat = s.heartbeat ++ m ∷ [] }

abbrev pub to_capability : ProtocolMessage → SessionMux → SessionMux
to_capability m s =
    if s.capability_closed then s else record s { capability = s.capability ++ m ∷ [] }

-- One turn of the loop.
abbrev pub route : ProtocolMessage → SessionMux → SessionMux
route (ping t) s = to_heartbeat (ping t) s
route (pong t) s = to_heartbeat (pong t) s
route (capability_msg n b) s = to_capability (capability_msg n b) s
route (offer _) s = s
route (confirm _ _ _) s = s
route (close _ _) s = s

unfoldable pub mux_message : ProtocolMessage → SessionMux → SessionMux
mux_message m s = if s.ended then s else route m s

-- The messages of the transport, in turn.
unfoldable pub mux_messages : List ProtocolMessage → SessionMux → SessionMux
unfolding mux_message
mux_messages [] s = s
mux_messages (m ∷ ms) s = mux_messages ms (mux_message m s)

-- What the responder has sent to the transport and passed on to the heartbeat.
pub record Responder : Type 0 where
  pub sent : List ProtocolMessage
  pub passed_on : List ProtocolMessage
  pub transport_closed : Bool
  pub heartbeat_gone : Bool
  pub ended : Bool

abbrev pub new_responder : Responder
new_responder = record {
  sent = [];
  passed_on = [];
  transport_closed = false;
  heartbeat_gone = false;
  ended = false;
}

abbrev pub respond : ProtocolMessage → Responder → Responder
respond (ping t) s =
    if s.transport_closed
    then record s { ended = true }
    else record s { sent = s.sent ++ pong t ∷ [] }
respond (pong t) s =
    if s.heartbeat_gone
    then record s { ended = true }
    else record s { passed_on = s.passed_on ++ pong t ∷ [] }
respond _ s = s

unfoldable pub responder_message : ProtocolMessage → Responder → Responder
responder_message m s = if s.ended then s else respond m s

unfoldable pub responder_messages : List ProtocolMessage → Responder → Responder
unfolding responder_message
responder_messages [] s = s
responder_messages (m ∷ ms) s = responder_messages ms (responder_message m s)

-- The messages of each kind, picked from all in order.
abbrev pub answer_to : ProtocolMessage → Option ProtocolMessage
answer_to (ping t) = some (pong t)
answer_to _ = none

abbrev pub is_pong : ProtocolMessage → Bool
is_pong (pong t) = true
is_pong _ = false

abbrev pub is_heartbeat : ProtocolMessage → Bool
is_heartbeat (ping t) = true
is_heartbeat (pong t) = true
is_heartbeat _ = false

abbrev pub is_capability : ProtocolMessage → Bool
is_capability (capability_msg n b) = true
is_capability _ = false

abbrev muxed : List ProtocolMessage → List ProtocolMessage → SessionMux
muxed xs ys = record build_session_mux { heartbeat = xs; capability = ys }

mux_messages-muxed :
    (ms xs ys : List ProtocolMessage)
    → mux_messages ms (muxed xs ys)
      ≡ muxed (xs ++ filter is_heartbeat ms) (ys ++ filter is_capability ms)
unfolding mux_messages mux_message
mux_messages-muxed [] xs ys = rw (append-nil xs, append-nil ys) refl
mux_messages-muxed (ping t ∷ ms) xs ys =
    mux_messages-muxed ms (xs ++ ping t ∷ []) ys
    ∙ ap (λ x. muxed x (ys ++ filter is_capability ms))
        (append_assoc xs (ping t ∷ []) (filter is_heartbeat ms))
mux_messages-muxed (pong t ∷ ms) xs ys =
    mux_messages-muxed ms (xs ++ pong t ∷ []) ys
    ∙ ap (λ x. muxed x (ys ++ filter is_capability ms))
        (append_assoc xs (pong t ∷ []) (filter is_heartbeat ms))
mux_messages-muxed (capability_msg n b ∷ ms) xs ys =
    mux_messages-muxed ms xs (ys ++ capability_msg n b ∷ [])
    ∙ ap (muxed (xs ++ filter is_heartbeat ms))
        (append_assoc ys (capability_msg n b ∷ []) (filter is_capability ms))
mux_messages-muxed (offer _ ∷ ms) xs ys = mux_messages-muxed ms xs ys
mux_messages-muxed (confirm _ _ _ ∷ ms) xs ys = mux_messages-muxed ms xs ys
mux_messages-muxed (close _ _ ∷ ms) xs ys = mux_messages-muxed ms xs ys

abbrev responded : List ProtocolMessage → List ProtocolMessage → Responder
responded xs ys = record new_responder { sent = xs; passed_on = ys }

responder_messages-responded :
    (ms xs ys : List ProtocolMessage)
    → responder_messages (filter is_heartbeat ms) (responded xs ys)
      ≡ responded (xs ++ filter_map answer_to ms) (ys ++ filter is_pong ms)
unfolding responder_messages responder_message
responder_messages-responded [] xs ys = rw (append-nil xs, append-nil ys) refl
responder_messages-responded (ping t ∷ ms) xs ys =
    responder_messages-responded ms (xs ++ pong t ∷ []) ys
    ∙ ap (λ x. responded x (ys ++ filter is_pong ms))
        (append_assoc xs (pong t ∷ []) (filter_map answer_to ms))
responder_messages-responded (pong t ∷ ms) xs ys =
    responder_messages-responded ms xs (ys ++ pong t ∷ [])
    ∙ ap (responded (xs ++ filter_map answer_to ms))
        (append_assoc ys (pong t ∷ []) (filter is_pong ms))
responder_messages-responded (capability_msg _ _ ∷ ms) xs ys = responder_messages-responded ms xs ys
responder_messages-responded (offer _ ∷ ms) xs ys = responder_messages-responded ms xs ys
responder_messages-responded (confirm _ _ _ ∷ ms) xs ys = responder_messages-responded ms xs ys
responder_messages-responded (close _ _ ∷ ms) xs ys = responder_messages-responded ms xs ys

-- While nobody closes a channel, each capability message that comes in on the transport reaches the
-- capability channel, each PING is answered with a PONG of its timestamp and each PONG reaches the heartbeat,
-- once and in the order of the transport, and nothing else does.
pub pings_answered :
    (ms : List ProtocolMessage)
    → let mux = mux_messages ms build_session_mux in
      let responder = responder_messages mux.heartbeat new_responder in
      (mux.capability ≡ filter is_capability ms)
      × (responder.sent ≡ filter_map answer_to ms)
      × (responder.passed_on ≡ filter is_pong ms)
pings_answered ms =
    rw (mux_messages-muxed ms [] [], responder_messages-responded ms [] []) (refl, refl, refl)

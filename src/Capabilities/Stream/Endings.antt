-- ===== src/Capabilities/Stream/Endings.antt =====
-- What is left of the streams that end by time or with their peer, and whom the callback is told of.
use mathlib.Core.Option
use howm.Base.{
  ℕ, ◌+◌, ◌≡◌, refl, sym, ap, ◌∙◌, not, Bool-cases, inl, inr, Option, none, some, List, [], ◌∷◌,
  ◌++◌, append_assoc, append-nil, map, filter, filter_cong, leb, ltb, arith, ◌==◌, lookup, IsMap,
  remove_each, remove_each-filter, bytes_ord, nat_ord, pair_ord,
}
use howm.Protocol.Manifest.{PeerId}
use howm.Protocol.Cbor.Codec.{Codec}
use howm.Protocol.Message.{ProtocolMessage}
use howm.Capabilities.Payload.{CapabilityContext, cbor_encode_map, make_capability_msg}
use howm.Capabilities.Senders.{appended, lookup-send_msg}
use howm.Capabilities.Stream.{
  StreamHandler, StreamState, SinkCall, is_idle, on_stream_closed, call_sink, stream_send_msg,
  stream_close,
}
use howm.Capabilities.Stream.Messages.{close_pairs}
use howm.Capabilities.Stream.Cleanup.{
  normal, timeout, reap_idle_streams, notify_reaped, reap_and_notify, of_peer, notify_closed,
  stream_on_deactivated,
}
use howm.Capabilities.Stream.Transfer.{logged, logged_twice, logged_none}

abbrev pub closed_by_time : PeerId × ℕ → SinkCall
closed_by_time (p, id) = on_stream_closed id p timeout

abbrev pub closed_of : PeerId → PeerId × ℕ → SinkCall
closed_of p (q, id) = on_stream_closed id p normal

notify_reaped-streams :
    (wire : Codec) (ids : List (PeerId × ℕ)) (h : StreamHandler)
    → (notify_reaped wire ids h).streams ≡ h.streams
unfolding notify_reaped call_sink stream_send_msg
notify_reaped-streams wire [] h = refl
notify_reaped-streams wire ((p, id) ∷ more) h = notify_reaped-streams wire more _

notify_reaped-data_sink :
    (wire : Codec) (ids : List (PeerId × ℕ)) (h : StreamHandler)
    → (notify_reaped wire ids h).data_sink
      ≡ Option.map (logged (map closed_by_time ids)) h.data_sink
unfolding notify_reaped call_sink stream_send_msg
notify_reaped-data_sink wire [] h = logged_none h.data_sink
notify_reaped-data_sink wire ((p, id) ∷ more) h =
    notify_reaped-data_sink wire more _
    ∙ logged_twice (on_stream_closed id p timeout ∷ []) (map closed_by_time more) h.data_sink

-- The notice of a stream's end by time.
abbrev pub timeout_notice : Codec → PeerId × ℕ → ProtocolMessage
timeout_notice wire e =
    make_capability_msg stream_close (cbor_encode_map wire (close_pairs e.1 timeout))

abbrev pub notices_for : Codec → PeerId → List (PeerId × ℕ) → List ProtocolMessage
notices_for wire p ids = map (timeout_notice wire) (filter (λ e. e.0 == p) ids)

added_twice :
    (xs ys : List ProtocolMessage) (o : Option (List ProtocolMessage))
    → Option.map (λ sent. sent ++ ys) (Option.map (λ sent. sent ++ xs) o)
      ≡ Option.map (λ sent. sent ++ (xs ++ ys)) o
added_twice xs ys none = refl
added_twice xs ys (some sent) = ap some (append_assoc sent xs ys)

added_none : (o : Option (List ProtocolMessage)) → o ≡ Option.map (λ sent. sent ++ []) o
added_none none = refl
added_none (some sent) = ap some (sym (append-nil sent))

appended-map :
    (m : ProtocolMessage) (o : Option (List ProtocolMessage))
    → appended m o ≡ Option.map (λ sent. sent ++ m ∷ []) o
appended-map m none = refl
appended-map m (some sent) = refl

notify_reaped-senders :
    (wire : Codec) (p : PeerId) (ids : List (PeerId × ℕ)) (h : StreamHandler)
    → lookup p (notify_reaped wire ids h).peer_senders
      ≡ Option.map (λ sent. sent ++ notices_for wire p ids) (lookup p h.peer_senders)
unfolding notify_reaped call_sink stream_send_msg
notify_reaped-senders wire p [] h = added_none (lookup p h.peer_senders)
notify_reaped-senders wire p ((q, id) ∷ more) h =
    let m = timeout_notice wire (q, id) in
    let step = lookup-send_msg p q m h.peer_senders in
    notify_reaped-senders wire p more _ ∙ elim (Bool-cases (q == p)) [
      | inl e ↦ rw e (
          ap (Option.map (λ sent. sent ++ notices_for wire p more))
            (step ∙ rw e (appended-map m (lookup p h.peer_senders)))
          ∙ added_twice (m ∷ []) (notices_for wire p more) (lookup p h.peer_senders))
      | inr e ↦ rw e (ap (Option.map (λ sent. sent ++ notices_for wire p more)) (step ∙ rw e refl))
    ]

-- A stream is kept up to its timeout after its last activity.
is_idle_iff :
    (now : ℕ) (st : StreamState) → is_idle now st ≡ ltb (st.last_activity + st.timeout_secs) now
unfolding is_idle
is_idle_iff now st = ground arith

-- Reaping keeps the streams whose last activity is not longer ago than their timeout. It tells the callback of
-- each of the others, once, that it timed out, and puts into the channel of any peer, after what is there,
-- one CLOSE for each of the others that the peer has.
pub reap_and_notify_lem :
    (wire : Codec) (now : ℕ) (p : PeerId) (h : StreamHandler)
    → let h' = reap_and_notify wire now h in
      let over =
        map (λ e. e.0) (filter (λ e. ltb (e.1.last_activity + e.1.timeout_secs) now) h.streams) in
      (h'.streams ≡ filter (λ e. leb now (e.1.last_activity + e.1.timeout_secs)) h.streams)
      × (h'.data_sink ≡ Option.map (logged (map closed_by_time over)) h.data_sink)
      × (lookup p h'.peer_senders
          ≡ Option.map (λ sent. sent ++ notices_for wire p over) (lookup p h.peer_senders))
unfolding reap_and_notify reap_idle_streams is_idle
reap_and_notify_lem wire now p h =
    let idle = map (λ e. e.0) (filter (λ e. is_idle now e.1) h.streams) in
    let h' = (reap_idle_streams now h).0 in
    let over =
      map (λ e. e.0) (filter (λ e. ltb (e.1.last_activity + e.1.timeout_secs) now) h.streams) in
    let same : idle ≡ over = ap (map (λ e. e.0)) (
      filter_cong (λ (e : (PeerId × ℕ) × StreamState). is_idle now e.1)
        (λ e. ltb (e.1.last_activity + e.1.timeout_secs) now) h.streams
        (λ e. is_idle_iff now e.1)) in
    (
      notify_reaped-streams wire idle h'
          ∙ filter_cong (λ (e : (PeerId × ℕ) × StreamState). not (is_idle now e.1))
              (λ e. leb now (e.1.last_activity + e.1.timeout_secs)) h.streams (λ e. ground arith),
      notify_reaped-data_sink wire idle h'
          ∙ ap
              (λ (ids : List (PeerId × ℕ)).
                Option.map (logged (map closed_by_time ids)) h.data_sink)
              same,
      notify_reaped-senders wire p idle h'
          ∙ ap
              (λ (ids : List (PeerId × ℕ)).
                Option.map (λ sent. sent ++ notices_for wire p ids) (lookup p h.peer_senders))
              same,
    )

notify_closed-streams :
    (p : PeerId) (ids : List (PeerId × ℕ)) (h : StreamHandler)
    → (notify_closed p ids h).streams ≡ h.streams
unfolding notify_closed call_sink
notify_closed-streams p [] h = refl
notify_closed-streams p ((q, id) ∷ more) h = notify_closed-streams p more _

notify_closed-data_sink :
    (p : PeerId) (ids : List (PeerId × ℕ)) (h : StreamHandler)
    → (notify_closed p ids h).data_sink ≡ Option.map (logged (map (closed_of p) ids)) h.data_sink
unfolding notify_closed call_sink
notify_closed-data_sink p [] h = logged_none h.data_sink
notify_closed-data_sink p ((q, id) ∷ more) h =
    notify_closed-data_sink p more _
    ∙ logged_twice (on_stream_closed id p normal ∷ []) (map (closed_of p) more) h.data_sink

-- When a session ends, the handler drops the peer's streams and no other, and tells the callback of each of
-- them, once, that it closed.
pub stream_on_deactivated_lem :
    (ctx : CapabilityContext) (h : StreamHandler)
    → IsMap h.streams
    → let h' = stream_on_deactivated ctx h in
      let gone = map (λ e. e.0) (filter (of_peer ctx.peer_id) h.streams) in
      (h'.streams ≡ filter (λ e. not (of_peer ctx.peer_id e)) h.streams)
      × (h'.data_sink ≡ Option.map (logged (map (closed_of ctx.peer_id) gone)) h.data_sink)
unfolding stream_on_deactivated
stream_on_deactivated_lem ctx h s =
    let p = ctx.peer_id in
    let gone = map (λ e. e.0) (filter (of_peer p) h.streams) in
    let h' : StreamHandler = record h { streams = remove_each gone h.streams } in
    (
      notify_closed-streams p gone h' ∙ remove_each-filter (of_peer p) h.streams s,
      notify_closed-data_sink p gone h',
    )

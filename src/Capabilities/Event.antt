-- ===== src/Capabilities/Event.antt =====
-- node/p2pcd/src/capabilities/event.rs: who is subscribed to which topic.
use howm.Base.{
  ℕ, ◌≡◌, refl, ap, ◌∙◌, sym, Bool, true, false, not, ◌&&◌, ◌||◌, Bool-cases, inl, inr, Option,
  none, some, Option-cases, List, [], ◌∷◌, ◌++◌, map, filter, contains, contains-filter, Bytes,
  Text, bytes_ord, nat_ord, ◌==◌, ==→eq, ==_comm, Map, lookup, insert, remove, lookup-insert,
  lookup-remove, nat_eq, unwrap_or, if◌then◌else◌, Result, arith,
}
use howm.Protocol.Manifest.{PeerId}
use howm.Protocol.Cbor.Values.{text, map_get}
use howm.Protocol.Cbor.Scopes.{CborError}
use howm.Protocol.Cbor.Codec.{Codec}
use howm.Capabilities.Payload.{
  CapabilityContext, cbor_encode_map, cbor_get_text, decode_payload, decode_payload-cbor_encode_map,
  with_map,
}

abbrev pub event_sub : ℕ
event_sub = 24

abbrev pub event_unsub : ℕ
event_unsub = 25

abbrev pub topic_key : ℕ
topic_key = 1

-- The send channel of the handler is never used.
pub record EventHandler : Type 0 where
  pub subscriptions : Map Text (List PeerId)

abbrev pub new_events : EventHandler
new_events = record { subscriptions = [] }

abbrev pub subscribers : Text → EventHandler → List PeerId
subscribers topic h = unwrap_or (lookup topic h.subscriptions) []

abbrev pub subscribed_topics : EventHandler → List Text
subscribed_topics h = map (λ e. e.0) h.subscriptions

abbrev pub with_peer : PeerId → List PeerId → List PeerId
with_peer p ps = if contains p ps then ps else ps ++ p ∷ []

unfoldable pub subscribe : PeerId → Text → EventHandler → EventHandler
subscribe p topic h = record h {
  subscriptions = insert topic (with_peer p (subscribers topic h)) h.subscriptions;
}

-- A topic without subscribers is dropped.
abbrev pub put_subscribers : Text → List PeerId → Map Text (List PeerId) → Map Text (List PeerId)
put_subscribers topic [] m = remove topic m
put_subscribers topic (p ∷ ps) m = insert topic (p ∷ ps) m

abbrev pub unsubscribe_found : PeerId → Text → EventHandler → Option (List PeerId) → EventHandler
unsubscribe_found p topic h none = h
unsubscribe_found p topic h (some ps) = record h {
  subscriptions = put_subscribers topic (filter (λ q. not (q == p)) ps) h.subscriptions;
}

unfoldable pub unsubscribe : PeerId → Text → EventHandler → EventHandler
unsubscribe p topic h = unsubscribe_found p topic h (lookup topic h.subscriptions)

-- `on_message`; an event itself is only logged.
unfoldable pub event_on_message :
    Codec
    → ℕ
    → CapabilityContext
    → Bytes
    → EventHandler
    → EventHandler × Result CborError (Unit {0})
unfolding decode_payload subscribe unsubscribe
event_on_message codec msg_type ctx payload h = with_map (decode_payload codec payload) h (λ m.
    let topic = unwrap_or (cbor_get_text m topic_key) [] in
    if nat_eq msg_type event_sub
    then subscribe ctx.peer_id topic h
    else if nat_eq msg_type event_unsub
    then unsubscribe ctx.peer_id topic h
    else h)

contains-snoc :
    (q p : PeerId) (ps : List PeerId) → contains q (ps ++ p ∷ []) ≡ (contains q ps || p == q)
contains-snoc q p [] = ground (arith, ==_comm p q)
contains-snoc q p (r ∷ ps) = ground (arith, contains-snoc q p ps)

contains-with_peer :
    (q p : PeerId) (ps : List PeerId)
    → contains q (with_peer p ps) ≡ (if p == q then true else contains q ps)
contains-with_peer q p ps = elim (Bool-cases (p == q)) [
  | inl e ↦ elim (Bool-cases (contains p ps)) [
    | inl k ↦ rw (k, e) (ap (λ x. contains x ps) (sym (==→eq p q e)) ∙ k)
    | inr k ↦ rw (k, e) (contains-snoc q p ps ∙ ground arith)
  ]
  | inr e ↦ elim (Bool-cases (contains p ps)) [
    | inl k ↦ rw (k, e) refl
    | inr k ↦ rw (k, e) (contains-snoc q p ps ∙ ground arith)
  ]
]

-- Whether a peer is subscribed to a topic.
abbrev pub is_subscribed : PeerId → Text → EventHandler → Bool
is_subscribed q topic h = contains q (subscribers topic h)

subscribe-is_subscribed :
    (p q : PeerId) (topic other : Text) (h : EventHandler)
    → is_subscribed q other (subscribe p topic h)
      ≡ (if (topic == other) && (p == q) then true else is_subscribed q other h)
unfolding subscribe
subscribe-is_subscribed p q topic other h = elim (Bool-cases (topic == other)) [
  | inl e ↦
      rw (lookup-insert other topic (with_peer p (subscribers topic h)) h.subscriptions, e)
        (contains-with_peer q p (subscribers topic h) ∙ rw (==→eq topic other e) refl)
  | inr e ↦
      rw (lookup-insert other topic (with_peer p (subscribers topic h)) h.subscriptions, e) refl
]

lookup-put_subscribers :
    (topic other : Text) (ps : List PeerId) (m : Map Text (List PeerId))
    → unwrap_or (lookup other (put_subscribers topic ps m)) []
      ≡ (if topic == other then ps else unwrap_or (lookup other m) [])
lookup-put_subscribers topic other [] m = elim (Bool-cases (topic == other)) [
  | inl e ↦ rw (lookup-remove other topic m, e) refl
  | inr e ↦ rw (lookup-remove other topic m, e) refl
]
lookup-put_subscribers topic other (p ∷ ps) m = elim (Bool-cases (topic == other)) [
  | inl e ↦ rw (lookup-insert other topic (p ∷ ps) m, e) refl
  | inr e ↦ rw (lookup-insert other topic (p ∷ ps) m, e) refl
]

unsubscribe-is_subscribed :
    (p q : PeerId) (topic other : Text) (h : EventHandler)
    → is_subscribed q other (unsubscribe p topic h)
      ≡ (if (topic == other) && (p == q) then false else is_subscribed q other h)
unfolding unsubscribe
unsubscribe-is_subscribed p q topic other h = elim (Option-cases (lookup topic h.subscriptions)) [
  | inl e ↦ rw e (elim (Bool-cases (topic == other)) [
    | inl k ↦
        let absent : lookup other h.subscriptions ≡ none =
          ap (λ x. lookup x h.subscriptions) (sym (==→eq topic other k)) ∙ e in
        rw (k, absent) (elim (Bool-cases (p == q)) [ inl l ↦ rw l refl | inr l ↦ rw l refl ])
    | inr k ↦ rw k refl
  ])
  | inr (ps, e) ↦
      let left = filter (λ x. not (x == p)) ps in
      rw (e, lookup-put_subscribers topic other left h.subscriptions)
        (elim (Bool-cases (topic == other)) [
          | inl k ↦
              let there : lookup other h.subscriptions ≡ some ps =
                ap (λ x. lookup x h.subscriptions) (sym (==→eq topic other k)) ∙ e in
              rw (k, there, contains-filter (λ x. not (x == p)) q ps, ==_comm q p)
                (elim (Bool-cases (p == q)) [
                  | inl l ↦ rw l (ground arith)
                  | inr l ↦ rw l (ground arith)
                ])
          | inr k ↦ rw k refl
        ])
]

module _ (codec : Codec) (ctx : CapabilityContext) (topic : Text) (h : EventHandler) where
  event_on_message-subscribe :
      (event_on_message codec event_sub ctx
        (cbor_encode_map codec ((topic_key, text topic) ∷ []))
        h).0
      ≡ subscribe ctx.peer_id topic h
  unfolding event_on_message map_get
  event_on_message-subscribe =
      rw (decode_payload-cbor_encode_map codec ((topic_key, text topic) ∷ [])) refl

  event_on_message-unsubscribe :
      (event_on_message codec event_unsub ctx
        (cbor_encode_map codec ((topic_key, text topic) ∷ []))
        h).0
      ≡ unsubscribe ctx.peer_id topic h
  unfolding event_on_message map_get
  event_on_message-unsubscribe =
      rw (decode_payload-cbor_encode_map codec ((topic_key, text topic) ∷ [])) refl

  -- A SUB of a topic makes its sender a subscriber of it and an UNSUB makes it none, and neither changes whether
  -- any other peer is subscribed to any topic, or the sender to another.
  pub event_on_message-is_subscribed :
      (q : PeerId) (other : Text)
      → let payload = cbor_encode_map codec ((topic_key, text topic) ∷ []) in
        let this = (topic == other) && (ctx.peer_id == q) in
        (is_subscribed q other (event_on_message codec event_sub ctx payload h).0
          ≡ (if this then true else is_subscribed q other h))
        × (is_subscribed q other (event_on_message codec event_unsub ctx payload h).0
            ≡ (if this then false else is_subscribed q other h))
  event_on_message-is_subscribed q other =
      rw (event_on_message-subscribe, event_on_message-unsubscribe)
        (
          subscribe-is_subscribed ctx.peer_id q topic other h,
          unsubscribe-is_subscribed ctx.peer_id q topic other h,
        )

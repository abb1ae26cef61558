-- ===== src/Capabilities/Senders.antt =====
-- The table of the peers' send channels that each capability handler of
-- node/p2pcd/src/capabilities keeps: a channel is the list of what was put into it.

use howm.Base.{
  ◌≡◌, refl, sym, ap, ◌∙◌, ==→eq, Option-cases, Option, none, some, List, [], ◌∷◌, ◌++◌, bytes_ord,
  ◌==◌, Map, lookup, insert, lookup-insert, ==_self, if◌then◌else◌, Bool-cases, inl, inr,
}
use howm.Protocol.Manifest.{PeerId}
use howm.Protocol.Message.{ProtocolMessage}

abbrev pub Senders : Type 0
Senders = Map PeerId (List ProtocolMessage)

abbrev pub put_message :
    PeerId → ProtocolMessage → Senders → Option (List ProtocolMessage) → Senders
put_message p m s none = s
put_message p m s (some sent) = insert p (sent ++ m ∷ []) s

-- A message for a peer without a channel is dropped.
unfoldable pub send_msg : PeerId → ProtocolMessage → Senders → Senders
send_msg p m s = put_message p m s (lookup p s)

abbrev pub appended :
    ProtocolMessage → Option (List ProtocolMessage) → Option (List ProtocolMessage)
appended m none = none
appended m (some sent) = some (sent ++ m ∷ [])

-- A message goes to the end of its peer's channel, if there is one, and no other channel changes.
pub lookup-send_msg :
    (q p : PeerId) (m : ProtocolMessage) (s : Senders)
    → lookup q (send_msg p m s) ≡ (if p == q then appended m (lookup q s) else lookup q s)
unfolding send_msg
lookup-send_msg q p m s = elim (Option-cases (lookup p s)) [
  | inl e ↦ rw e (elim (Bool-cases (p == q)) [
    | inl k ↦ rw (k, ap (λ x. lookup x s) (sym (==→eq p q k)), e) refl
    | inr k ↦ rw k refl
  ])
  | inr (sent, e) ↦ rw e (
      lookup-insert q p (sent ++ m ∷ []) s ∙ elim (Bool-cases (p == q)) [
        | inl k ↦ rw (k, ap (λ x. lookup x s) (sym (==→eq p q k)), e) refl
        | inr k ↦ rw k refl
      ])
]

pub lookup-send_msg_self :
    (p : PeerId) (m : ProtocolMessage) (s : Senders)
    → lookup p (send_msg p m s) ≡ appended m (lookup p s)
lookup-send_msg_self p m s = lookup-send_msg p p m s ∙ rw (==_self p) refl

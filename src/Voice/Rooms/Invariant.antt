-- ===== src/Voice/Rooms/Invariant.antt =====
-- What holds of every room after any sequence of operations.
pub mod Stores
pub mod Reachable
use howm.Base.{
  ℕ, ◌+◌, ◌≤◌, ◌≡◌, refl, sym, ap, ◌∙◌, subst, max, Bool, true, false, not, ◌&&◌, Option, none,
  some, List, [], ◌∷◌, ◌++◌, Text, bytes_ord, ◌==◌, ==_comm, Map, lookup, insert, remove, IsMap,
  insert-IsMap, map, filter, any, contains, NoRepeats, find_by_absent, contains-find_by,
  filter-NoRepeats, All, All-mono, length, length-append, length-filter-le, leb, arith, Bool-cases,
  Option-cases, Result, if◌then◌else◌, inl, inr,
}
use howm.Voice.Rooms.{
  VoiceConfig, RoomMember, Room, RoomStore, new_store, create_room, join_room, leave_room,
  close_room, invite_peers, invite_each, invite_one, set_mute, mute_first, put_room, drop_room,
  new_member, RoomError, join_found, is_placeholder, muted_room, is_invited, is_member, admit,
  without, on_room, is_empty,
}
use howm.Voice.Rooms.Sweeps.{
  cleanup_stale_rooms, cleanup_expired_invites, expire_room, expire_rooms, remove_peer_from_all,
  leave_each, remove_destroyed, affected_rooms, has_expired, is_fresh,
}
use howm.Voice.Rooms.Invites.{handle_invite, VoiceInvitePayload}

abbrev pub peers : List RoomMember → List Text
peers = map (λ m. m.peer_id)

-- No peer is a member twice, and the room is not over its size, its creator aside.
abbrev pub IsSound : Room → Type 0
IsSound r = NoRepeats (peers r.members) × (length r.members ≤ max 1 r.max_members)

pub any-peers :
    (p : Text) (ms : List RoomMember) → any (λ m. m.peer_id == p) ms ≡ contains p (peers ms)
any-peers p [] = refl
any-peers p (m ∷ ms) = rw (any-peers p ms) refl

pub peers-filter :
    (p : Text) (ms : List RoomMember)
    → peers (filter (λ m. not (m.peer_id == p)) ms) ≡ filter (λ q. not (q == p)) (peers ms)
peers-filter p [] = refl
peers-filter p (m ∷ ms) = elim (Bool-cases (m.peer_id == p)) [
  | inl e ↦ rw e (peers-filter p ms)
  | inr e ↦ rw e (ap (λ ps. m.peer_id ∷ ps) (peers-filter p ms))
]

pub peers-mute_first :
    (p : Text) (b : Bool) (ms : List RoomMember) → peers (mute_first p b ms) ≡ peers ms
unfolding mute_first
peers-mute_first p b [] = refl
peers-mute_first p b (m ∷ ms) = ground (arith, peers-mute_first p b ms)

pub length-mute_first :
    (p : Text) (b : Bool) (ms : List RoomMember) → length (mute_first p b ms) ≡ length ms
unfolding mute_first
length-mute_first p b [] = refl
length-mute_first p b (m ∷ ms) = ground (arith, length-mute_first p b ms)

pub contains-append :
    (x y : Text) (xs : List Text)
    → contains x xs ≡ false
    → (y == x) ≡ false
    → contains x (xs ++ y ∷ []) ≡ false
contains-append x y [] h e = rw e refl
contains-append x y (z ∷ xs) h e = ground (arith, contains-append x y xs)

pub append-NoRepeats :
    (xs : List Text) (p : Text) → NoRepeats xs → contains p xs ≡ false → NoRepeats (xs ++ p ∷ [])
append-NoRepeats [] p d h = (refl, tt)
append-NoRepeats (x ∷ xs) p d h = (
  find_by_absent x (xs ++ p ∷ [])
      (contains-append x p xs (contains-find_by x xs d.0) ground (arith, ==_comm x p)),
  append-NoRepeats xs p d.1 ground arith,
)

pub map-append :
    (ms : List RoomMember) (m : RoomMember) → peers (ms ++ m ∷ []) ≡ peers ms ++ m.peer_id ∷ []
map-append [] m = refl
map-append (n ∷ ms) m = ap (λ ps. n.peer_id ∷ ps) (map-append ms m)

pub admit-IsSound :
    (now : ℕ) (p : Text) (r : Room)
    → IsSound r
    → is_member p r ≡ false
    → leb r.max_members (length r.members) ≡ false
    → IsSound (admit now p r)
admit-IsSound now p r h absent room = (
  subst NoRepeats (sym (map-append r.members (new_member now p)))
      (append-NoRepeats (peers r.members) p h.0 (sym (any-peers p r.members) ∙ absent)),
  ground (arith, length-append r.members (new_member now p ∷ [])),
)

pub without-IsSound : (p : Text) (r : Room) → IsSound r → IsSound (without p r)
without-IsSound p r h = (
  subst NoRepeats (sym (peers-filter p r.members))
      (filter-NoRepeats (λ q. not (q == p)) (peers r.members) h.0),
  ground (arith, length-filter-le (λ (m : RoomMember). not (m.peer_id == p)) r.members, h.1),
)

pub muted_room-IsSound : (p : Text) (b : Bool) (r : Room) → IsSound r → IsSound (muted_room p b r)
muted_room-IsSound p b r h = (
  subst NoRepeats (sym (peers-mute_first p b r.members)) h.0,
  rw (length-mute_first p b r.members) h.1,
)

pub invite_each-IsSound : (ps : List Text) (r : Room) → IsSound r → IsSound (invite_each ps r)
unfolding invite_each
invite_each-IsSound [] r h = h
invite_each-IsSound (p ∷ ps) r h =
    invite_each-IsSound ps (invite_one p r)
      (elim (Bool-cases (not (is_invited p r) && not (is_member p r))) [
        | inl e ↦ rw e h
        | inr e ↦ rw e h
      ])

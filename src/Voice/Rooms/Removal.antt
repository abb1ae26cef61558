-- ===== src/Voice/Rooms/Removal.antt =====
-- Rooms that lose members, invitations or themselves: a peer that goes offline, and the two sweeps.
use mathlib.Core.Option
use howm.Base.{
  ℕ, ◌+◌, ◌-◌, ◌^◌, ◌<◌, ◌≤◌, ◌≡◌, refl, sym, ◌∙◌, Bool, true, false, not, ◌&&◌, ◌||◌, Option, none,
  some, List, [], ◌∷◌, Text, bytes_ord, ◌==◌, ==_self, ==→eq, Map, IsMap, Above, lookup, remove,
  lookup-insert, lookup-remove, lookup-Above, filter, any, if◌then◌else◌, ltb, length, arith,
  Bool-cases, Option-cases, inl, inr,
}
use howm.Voice.Rooms.{Room, RoomStore, leave_room, get_room, without, is_member, is_empty}
use howm.Voice.Rooms.Sweeps.{
  remove_peer_from_all, affected_rooms, leave_each, remove_destroyed, cleanup_stale_rooms, is_fresh,
  age, cleanup_expired_invites, expire_rooms,
}

abbrev destroyed : Text → List (Text × Bool) → Bool
destroyed id = any (λ e. e.0 == id && e.1)

-- What is left of a room when the peer is gone.
abbrev pub left_of : Text → Room → Room
left_of p r = if is_member p r then without p r else r

abbrev pub dies_without : Text → Option Room → Bool
dies_without p none = false
dies_without p (some r) = is_member p r && is_empty (without p r).members

lookup-remove_destroyed :
    (id : Text) (affected : List (Text × Bool)) (rooms : Map Text Room)
    → lookup id (remove_destroyed affected rooms)
      ≡ (if destroyed id affected then none else lookup id rooms)
unfolding remove_destroyed
lookup-remove_destroyed id [] rooms = refl
lookup-remove_destroyed id ((j, true) ∷ more) rooms =
    lookup-remove_destroyed id more (remove j rooms) ∙ ground (arith, lookup-remove id j rooms)
lookup-remove_destroyed id ((j, false) ∷ more) rooms =
    lookup-remove_destroyed id more rooms ∙ ground arith

lookup-leave_each :
    (id p : Text) (rooms : Map Text Room)
    → lookup id (leave_each p rooms) ≡ Option.map (left_of p) (lookup id rooms)
unfolding leave_each lookup
lookup-leave_each id p [] = refl
lookup-leave_each id p ((j, r) ∷ rooms) = elim (Bool-cases (j == id)) [
  | inl e ↦ rw e refl
  | inr e ↦ rw e (lookup-leave_each id p rooms)
]

destroyed-Above :
    (id p : Text) (rooms : Map Text Room)
    → Above (λ e. e.0) id rooms
    → destroyed id (affected_rooms p rooms) ≡ false
unfolding affected_rooms
destroyed-Above id p [] a = refl
destroyed-Above id p ((j, r) ∷ rooms) a = ground (arith, a.1, destroyed-Above id p rooms a.2)

destroyed_step :
    (id j : Text) (m b : Bool) (more : List (Text × Bool))
    → destroyed id (if m then (j, b) ∷ more else more) ≡ (j == id && (m && b) || destroyed id more)
destroyed_step id j m b more = ground arith

destroyed-affected_rooms :
    (id p : Text) (rooms : Map Text Room)
    → IsMap rooms
    → destroyed id (affected_rooms p rooms) ≡ dies_without p (lookup id rooms)
unfolding affected_rooms lookup
destroyed-affected_rooms id p [] h = refl
destroyed-affected_rooms id p ((j, r) ∷ rooms) h =
    destroyed_step id j (is_member p r) (is_empty (without p r).members) (affected_rooms p rooms)
    ∙ elim (Bool-cases (j == id)) [
      | inl e ↦
          let above : Above (λ e. e.0) id rooms = rw (← ==→eq j id e) h.0 in
          rw (e, destroyed-Above id p rooms above) (ground arith)
      | inr e ↦ rw e (destroyed-affected_rooms id p rooms h.1)
    ]

abbrev pub has_member : Text → Option Room → Bool
has_member p none = false
has_member p (some r) = is_member p r

-- In a store with its rooms in the order of their ids: when a peer goes offline, each room that
-- it is a member of becomes what it becomes when the peer leaves it, gone where it was the last
-- member, and every other room stays.
pub remove_peer_from_all-leave_room :
    (id p : Text) (s : RoomStore)
    → IsMap s.rooms
    → get_room id (remove_peer_from_all p s).0
      ≡ (if has_member p (get_room id s) then get_room id (leave_room id p s).0 else get_room id s)
unfolding remove_peer_from_all leave_room get_room
remove_peer_from_all-leave_room id p s h =
    lookup-remove_destroyed id (affected_rooms p s.rooms) (leave_each p s.rooms)
    ∙ rw (destroyed-affected_rooms id p s.rooms h, lookup-leave_each id p s.rooms)
        (elim (Option-cases (lookup id s.rooms)) [
          | inl e ↦ rw e refl
          | inr (r, e) ↦ rw e (elim (Bool-cases (is_member p r)) [
            | inl m ↦ rw m (elim (Bool-cases (is_empty (without p r).members)) [
              | inl l ↦ rw l (sym (lookup-remove id id s.rooms ∙ rw (==_self id) refl))
              | inr l ↦
                  rw l (sym (lookup-insert id id (without p r) s.rooms ∙ rw (==_self id) refl))
            ])
            | inr m ↦ rw m refl
          ])
        ])

abbrev pub keep_if : (Room → Bool) → Option Room → Option Room
keep_if f none = none
keep_if f (some r) = if f r then some r else none

lookup-filter :
    (f : Room → Bool) (id : Text) (rooms : Map Text Room)
    → IsMap rooms
    → lookup id (filter (λ e. f e.1) rooms) ≡ keep_if f (lookup id rooms)
unfolding lookup
lookup-filter f id [] h = refl
lookup-filter f id ((j, r) ∷ rooms) h = elim (Bool-cases (f r)) [
  | inl k ↦ rw k (elim (Bool-cases (j == id)) [
    | inl e ↦ rw (e, k) refl
    | inr e ↦ rw e (lookup-filter f id rooms h.1)
  ])
  | inr k ↦ rw k (elim (Bool-cases (j == id)) [
    | inl e ↦
        let above : Above (λ e. e.0) id rooms = rw (← ==→eq j id e) h.0 in
        rw (e, k) (lookup-filter f id rooms h.1 ∙ rw (lookup-Above id rooms above) refl)
    | inr e ↦ rw e (lookup-filter f id rooms h.1)
  ])
]

age-past : (now created : ℕ) → created ≤ now → now < 2 ^ 64 → age now created ≡ now - created
age-past now created past h = omega arith

age-future :
    (now created : ℕ) → now < created → created < 2 ^ 64 → age now created ≡ now + 2 ^ 64 - created
age-future now created future h = omega arith

-- In a store with its rooms in the order of their ids, a sweep keeps a room that was created no
-- later than the time of the sweep, a u64, exactly if the room has members or is younger than
-- the timeout.
pub cleanup_stale_rooms-past :
    (id : Text) (now : ℕ) (s : RoomStore) (r : Room)
    → IsMap s.rooms
    → get_room id s ≡ some r
    → r.created_at ≤ now
    → now < 2 ^ 64
    → get_room id (cleanup_stale_rooms now s).0 ≡ (
        if not (is_empty r.members) || ltb (now - r.created_at) s.config.room_timeout_secs
        then some r
        else none)
unfolding cleanup_stale_rooms get_room
cleanup_stale_rooms-past id now s r h found past bound =
    lookup-filter (is_fresh now s.config.room_timeout_secs) id s.rooms h
    ∙ rw (found, age-past now r.created_at past bound) refl

-- In a store with its rooms in the order of their ids, a sweep drops a room without members
-- that was created after the time of the sweep, however young it is, if the timeout is at most
-- the difference of the two times as it wraps around at 64 bits.
pub cleanup_stale_rooms-future :
    (id : Text) (now : ℕ) (s : RoomStore) (r : Room)
    → IsMap s.rooms
    → get_room id s ≡ some r
    → r.members ≡ []
    → now < r.created_at
    → r.created_at < 2 ^ 64
    → s.config.room_timeout_secs ≤ now + 2 ^ 64 - r.created_at
    → get_room id (cleanup_stale_rooms now s).0 ≡ none
unfolding cleanup_stale_rooms get_room
cleanup_stale_rooms-future id now s r h found empty future bound timeout =
    lookup-filter (is_fresh now s.config.room_timeout_secs) id s.rooms h
    ∙ rw (found, empty, age-future now r.created_at future bound) (ground arith)

abbrev pub invitations : Map Text Room → ℕ
invitations [] = 0
invitations ((id, r) ∷ rooms) = length r.invited + invitations rooms

-- The number that the sweep of the invitations returns is the number of those it removes.
pub cleanup_expired_invites-counts :
    (now : ℕ) (s : RoomStore)
    → invitations (cleanup_expired_invites now s).0.rooms + (cleanup_expired_invites now s).1
      ≡ invitations s.rooms
unfolding cleanup_expired_invites expire_rooms
cleanup_expired_invites-counts now s = by_rooms s.config.invite_timeout_secs s.rooms
  where
    by_rooms :
        (timeout : ℕ) (rooms : Map Text Room)
        → invitations (expire_rooms now timeout rooms).0 + (expire_rooms now timeout rooms).1
          ≡ invitations rooms
    by_rooms timeout [] = refl
    by_rooms timeout ((id, r) ∷ rooms) = ground (arith, by_rooms timeout rooms)

-- ===== src/Voice/Rooms/Sweeps.antt =====
-- capabilities/voice/src/state.rs: the operations that go through all rooms.
use howm.Base.{
  ℕ, ◌+◌, ◌-◌, ◌%◌, ◌^◌, Bool, true, false, not, ◌&&◌, ◌||◌, List, [], ◌∷◌, Text, bytes_ord, Map,
  remove, filter, length, ltb, if◌then◌else◌,
}
use howm.Voice.Rooms.{Room, RoomStore, is_empty, is_member, without}

-- `now - created_at` on u64, as a release build computes it: a debug build panics below 0.
abbrev pub age : ℕ → ℕ → ℕ
age now created = (now + 2 ^ 64 - created) % 2 ^ 64

abbrev pub is_fresh : ℕ → ℕ → Room → Bool
is_fresh now timeout r = not (is_empty r.members) || ltb (age now r.created_at) timeout

unfoldable pub cleanup_stale_rooms : ℕ → RoomStore → RoomStore × ℕ
cleanup_stale_rooms now s =
    let kept = filter (λ e. is_fresh now s.config.room_timeout_secs e.1) s.rooms in
    (record s { rooms = kept }, length s.rooms - length kept)

-- `saturating_sub` and the test of the invitations.
abbrev pub has_expired : ℕ → ℕ → Room → Bool
has_expired now timeout r = ltb timeout (now - r.created_at) && not (is_empty r.invited)

-- One room, and how many invitations it loses.
abbrev pub expire_room : ℕ → ℕ → Room → Room × ℕ
expire_room now timeout r =
    if has_expired now timeout r then (record r { invited = [] }, length r.invited) else (r, 0)

unfoldable pub expire_rooms : ℕ → ℕ → Map Text Room → Map Text Room × ℕ
expire_rooms now timeout [] = ([], 0)
expire_rooms now timeout ((id, r) ∷ rest) =
    let (r', lost) = expire_room now timeout r in
    let (rest', more) = expire_rooms now timeout rest in ((id, r') ∷ rest', lost + more)

unfoldable pub cleanup_expired_invites : ℕ → RoomStore → RoomStore × ℕ
unfolding expire_rooms
cleanup_expired_invites now s =
    let (rooms', total) = expire_rooms now s.config.invite_timeout_secs s.rooms in
    (record s { rooms = rooms' }, total)

-- The rooms that the peer was in, each with whether it is destroyed.
unfoldable pub affected_rooms : Text → Map Text Room → List (Text × Bool)
affected_rooms p [] = []
affected_rooms p ((id, r) ∷ rest) =
    let more = affected_rooms p rest in
    if is_member p r then (id, is_empty (without p r).members) ∷ more else more

unfoldable pub leave_each : Text → Map Text Room → Map Text Room
leave_each p [] = []
leave_each p ((id, r) ∷ rest) = (id, if is_member p r then without p r else r) ∷ leave_each p rest

unfoldable pub remove_destroyed : List (Text × Bool) → Map Text Room → Map Text Room
remove_destroyed [] rooms = rooms
remove_destroyed ((id, true) ∷ more) rooms = remove_destroyed more (remove id rooms)
remove_destroyed ((id, false) ∷ more) rooms = remove_destroyed more rooms

unfoldable pub remove_peer_from_all : Text → RoomStore → RoomStore × List (Text × Bool)
unfolding affected_rooms leave_each remove_destroyed
remove_peer_from_all p s =
    let affected = affected_rooms p s.rooms in
    (record s { rooms = remove_destroyed affected (leave_each p s.rooms) }, affected)

-- ===== src/Examples/Voice.antt =====
-- A voice room that `alice` creates and `bob` is invited to.
use howm.Base.{
  ◌+◌, ◌≡◌, refl, none, some, [], ◌∷◌, ok, err, bytes, Text, bytes_ord, IsMap, lookup, insert,
  arith,
}
use howm.Voice.Rooms.{
  Room, RoomStore, default_config, new_store, create_room, join_room, leave_room, get_room, admit,
  not_invited, new_member,
}
use howm.Voice.Rooms.Sweeps.{remove_peer_from_all, cleanup_stale_rooms, cleanup_expired_invites}
use howm.Voice.Rooms.Invariant.Stores.{AllSound}
use howm.Voice.Rooms.Invariant.Reachable.{start, after_create, after_join, Reachable-AllSound}
use howm.Voice.Rooms.Joining.{join_room-again, leave_room-join_room}
use howm.Voice.Rooms.Removal.{
  remove_peer_from_all-leave_room, cleanup_stale_rooms-future, cleanup_expired_invites-counts,
  invitations,
}

abbrev alice : Text
alice = bytes "alice"

abbrev bob : Text
bob = bytes "bob"

abbrev talk : Text
talk = bytes "talk"

abbrev talk_room : Room
talk_room = record {
  room_id = talk;
  name = none;
  created_by = alice;
  created_at = 100;
  members = new_member 100 alice ∷ [];
  invited = bob ∷ [];
  max_members = 10;
}

abbrev opened : RoomStore
opened = record { rooms = (talk, talk_room) ∷ []; config = default_config }

opened-create_room :
    (create_room talk 100 alice none (bob ∷ []) none (new_store default_config)).0 ≡ opened
unfolding create_room insert
opened-create_room = refl

opened-IsMap : IsMap opened.rooms
opened-IsMap = (tt, tt)

opened-lookup : lookup talk opened.rooms ≡ some talk_room
unfolding lookup
opened-lookup = refl

bob_joins : (join_room 110 talk bob opened).1 ≡ ok (admit 110 bob talk_room)
unfolding join_room lookup
bob_joins = refl

Reachable-AllSound_example :
    AllSound
      (join_room 110 talk bob
        (create_room talk 100 alice none (bob ∷ []) none (new_store default_config)).0).0.rooms
Reachable-AllSound_example =
    Reachable-AllSound
      (after_join 110 talk bob (after_create talk 100 alice none (bob ∷ []) none start))

join_room-again_example :
    (join_room 120 talk bob (join_room 110 talk bob opened).0).1 ≡ err not_invited
join_room-again_example =
    join_room-again 110 120 talk bob opened talk_room (admit 110 bob talk_room) opened-lookup refl
      bob_joins

leave_room-join_room_example :
    get_room talk (leave_room talk bob (join_room 110 talk bob opened).0).0
    ≡ some (record talk_room { invited = [] })
leave_room-join_room_example =
    leave_room-join_room 110 talk bob opened talk_room (admit 110 bob talk_room) opened-lookup refl
      bob_joins

remove_peer_from_all-leave_room_example :
    get_room talk (remove_peer_from_all alice opened).0
    ≡ get_room talk (leave_room talk alice opened).0
unfolding get_room lookup
remove_peer_from_all-leave_room_example =
    remove_peer_from_all-leave_room talk alice opened opened-IsMap

-- The room of an invitation from another node.
abbrev remote_room : Room
remote_room = record talk_room { members = []; invited = alice ∷ [] }

abbrev invited_here : RoomStore
invited_here = record { rooms = (talk, remote_room) ∷ []; config = default_config }

invited_here-get_room : get_room talk invited_here ≡ some remote_room
unfolding get_room lookup
invited_here-get_room = refl

cleanup_stale_rooms-future_example : get_room talk (cleanup_stale_rooms 99 invited_here).0 ≡ none
cleanup_stale_rooms-future_example =
    cleanup_stale_rooms-future talk 99 invited_here remote_room (tt, tt) invited_here-get_room refl
      (omega arith) (omega arith) (omega arith)

cleanup_expired_invites-counts_example :
    invitations (cleanup_expired_invites 500 invited_here).0.rooms
      + (cleanup_expired_invites 500 invited_here).1
    ≡ 1
cleanup_expired_invites-counts_example = cleanup_expired_invites-counts 500 invited_here

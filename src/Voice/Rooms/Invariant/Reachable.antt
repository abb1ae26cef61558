-- ===== src/Voice/Rooms/Invariant/Reachable.antt =====
-- The stores that the operations reach.
use howm.Base.{ℕ, refl, Bool, Option, List, Text, bytes_ord, arith}
use howm.Voice.Rooms.{
  VoiceConfig, RoomStore, new_store, create_room, join_room, leave_room, close_room, invite_peers,
  set_mute, join_found, leave_found, close_found, mute_found,
}
use howm.Voice.Rooms.Sweeps.{
  cleanup_stale_rooms, cleanup_expired_invites, remove_peer_from_all, is_fresh, affected_rooms,
  leave_each,
}
use howm.Voice.Rooms.Invites.{VoiceInvitePayload, insert_placeholder, placeholder}
use howm.Voice.Rooms.Invariant.{IsSound}
use howm.Voice.Rooms.Invariant.Stores.{
  AllSound, insert-AllSound, on_room-AllSound, join_found-AllSound, leave_found-AllSound,
  close_found-AllSound, mute_found-AllSound, invite_peers-AllSound, filter-AllSound,
  expire_rooms-AllSound, remove_destroyed-AllSound, leave_each-AllSound,
}

-- The stores that a sequence of operations leads to, whatever their results. A remote invitation inserts its
-- placeholder into whatever store is there then, which need not be the one that it looked into.
pub data Reachable (config : VoiceConfig) : RoomStore → Type 0 where
  start : Reachable config (new_store config)
  after_create :
      {s : RoomStore} (id : Text) (now : ℕ) (creator : Text) (name : Option Text)
      (invited : List Text) (size : Option ℕ)
      → Reachable config s
      → Reachable config (create_room id now creator name invited size s).0
  after_join :
      {s : RoomStore} (now : ℕ) (id p : Text)
      → Reachable config s
      → Reachable config (join_room now id p s).0
  after_leave :
      {s : RoomStore} (id p : Text) → Reachable config s → Reachable config (leave_room id p s).0
  after_close :
      {s : RoomStore} (id p : Text) → Reachable config s → Reachable config (close_room id p s).0
  after_invite :
      {s : RoomStore} (id : Text) (ps : List Text)
      → Reachable config s
      → Reachable config (invite_peers id ps s).0
  after_mute :
      {s : RoomStore} (id p : Text) (b : Bool)
      → Reachable config s
      → Reachable config (set_mute id p b s).0
  after_stale :
      {s : RoomStore} (now : ℕ)
      → Reachable config s
      → Reachable config (cleanup_stale_rooms now s).0
  after_expired :
      {s : RoomStore} (now : ℕ)
      → Reachable config s
      → Reachable config (cleanup_expired_invites now s).0
  after_offline :
      {s : RoomStore} (p : Text)
      → Reachable config s
      → Reachable config (remove_peer_from_all p s).0
  after_remote_invite :
      {s : RoomStore} (now : ℕ) (from : Text) (payload : VoiceInvitePayload)
      → Reachable config s
      → Reachable config (insert_placeholder now from payload s)

created_room-IsSound :
    (id : Text) (now : ℕ) (creator : Text) (name : Option Text) (invited : List Text)
    (size : Option ℕ) (s : RoomStore)
    → IsSound (create_room id now creator name invited size s).1
unfolding create_room
created_room-IsSound id now creator name invited size s = ((refl, tt), omega arith)

-- In every store that the operations reach, no room has a peer as a member twice, and no room has more
-- members than its size or, where that is 0, than its creator.
pub Reachable-AllSound :
    {config : VoiceConfig} {s : RoomStore} → Reachable config s → AllSound s.rooms
unfolding create_room join_room leave_room close_room set_mute cleanup_stale_rooms
    cleanup_expired_invites remove_peer_from_all
Reachable-AllSound start = tt
Reachable-AllSound (after_create {s} id now creator name invited size h) =
    insert-AllSound id (create_room id now creator name invited size s).1 s.rooms
      (created_room-IsSound id now creator name invited size s) (Reachable-AllSound h)
Reachable-AllSound (after_join {s} now id p h) =
    let k = Reachable-AllSound h in
    on_room-AllSound id s (join_found now id p s) k (λ r q. join_found-AllSound now id p s r k q)
Reachable-AllSound (after_leave {s} id p h) =
    let k = Reachable-AllSound h in
    on_room-AllSound id s (leave_found id p s) k (λ r q. leave_found-AllSound id p s r k q)
Reachable-AllSound (after_close {s} id p h) =
    let k = Reachable-AllSound h in
    on_room-AllSound id s (close_found id p s) k (λ r q. close_found-AllSound id p s r k)
Reachable-AllSound (after_invite {s} id ps h) = invite_peers-AllSound id ps s (Reachable-AllSound h)
Reachable-AllSound (after_mute {s} id p b h) =
    let k = Reachable-AllSound h in
    on_room-AllSound id s (mute_found id p b s) k (λ r q. mute_found-AllSound id p b s r k q)
Reachable-AllSound (after_stale {s} now h) =
    filter-AllSound (λ e. is_fresh now s.config.room_timeout_secs e.1) s.rooms
      (Reachable-AllSound h)
Reachable-AllSound (after_expired {s} now h) =
    expire_rooms-AllSound now s.config.invite_timeout_secs s.rooms (Reachable-AllSound h)
Reachable-AllSound (after_offline {s} p h) =
    remove_destroyed-AllSound (affected_rooms p s.rooms) (leave_each p s.rooms)
      (leave_each-AllSound p s.rooms (Reachable-AllSound h))
Reachable-AllSound (after_remote_invite {s} now from payload h) =
    insert-AllSound payload.invite_room_id (placeholder now from payload) s.rooms (tt, omega arith)
      (Reachable-AllSound h)

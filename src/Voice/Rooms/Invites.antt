-- ===== src/Voice/Rooms/Invites.antt =====
-- capabilities/voice/src/bridge.rs: the rooms that invitations from other nodes make. The look for the room and
-- the placeholder's insertion each hold the lock of the rooms, but not together.
use howm.Base.{ℕ, Option, none, some, [], ◌∷◌, Text, bytes_ord, lookup, if◌then◌else◌}
use howm.Voice.Rooms.{Room, RoomStore, is_empty, put_room}

-- The payload of a `voice.invite` message, decoded.
pub record VoiceInvitePayload : Type 0 where
  pub invite_room_id : Text
  pub invite_room_name : Text
  pub inviter_peer_id : Text

abbrev pub placeholder : ℕ → Text → VoiceInvitePayload → Room
placeholder now from payload = record {
  room_id = payload.invite_room_id;
  name = if is_empty payload.invite_room_name then none else some payload.invite_room_name;
  created_by = payload.inviter_peer_id;
  created_at = now;
  members = [];
  invited = from ∷ [];
  max_members = 10;
}

-- The second step, for a room that the first has not found.
abbrev pub insert_placeholder : ℕ → Text → VoiceInvitePayload → RoomStore → RoomStore
insert_placeholder now from payload s =
    put_room payload.invite_room_id (placeholder now from payload) s

-- Where the room is there, the code calls `invite_peers` with the rooms locked for reading, which waits to
-- lock them for writing: the call does not return, and no store comes after it.
abbrev pub invite_found : ℕ → Text → VoiceInvitePayload → RoomStore → Option Room → Option RoomStore
invite_found now from payload s none = some (insert_placeholder now from payload s)
invite_found now from payload s (some r) = none

-- The rooms after an invitation, if no other operation comes between its steps; nothing where it does not
-- return. The notification and the log are left out.
unfoldable pub handle_invite : ℕ → Text → VoiceInvitePayload → RoomStore → Option RoomStore
handle_invite now from payload s =
    invite_found now from payload s (lookup payload.invite_room_id s.rooms)

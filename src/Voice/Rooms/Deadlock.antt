-- ===== src/Voice/Rooms/Deadlock.antt =====
-- Invitations from other nodes into a room that is known here.
use howm.Base.{
  ℕ, ◌≡◌, refl, sym, ap, ◌∙◌, Option, none, some, Text, bytes_ord, lookup, lookup-insert_self,
}
use howm.Voice.Rooms.{Room, RoomStore, get_room}
use howm.Voice.Rooms.Invites.{
  VoiceInvitePayload, placeholder, insert_placeholder, invite_found, handle_invite,
}

-- The store after a placeholder is the one that the insertion gives.
invite_found-eq-some :
    (now : ℕ) (from : Text) (payload : VoiceInvitePayload) (s s' : RoomStore) (r : Option Room)
    → invite_found now from payload s r ≡ some s'
    → insert_placeholder now from payload s ≡ s'
invite_found-eq-some now from payload s s' none made = cc
invite_found-eq-some now from payload s s' (some r) made = cc

-- When the handling of an invitation returns, its room is there as a placeholder with the sender as the one
-- invited, and the handling of the next invitation into it, from whomever, does not return.
pub handle_invite-again :
    (now later : ℕ) (from from' : Text) (payload payload' : VoiceInvitePayload) (s s' : RoomStore)
    → handle_invite now from payload s ≡ some s'
    → payload'.invite_room_id ≡ payload.invite_room_id
    → (get_room payload.invite_room_id s' ≡ some (placeholder now from payload))
      × (handle_invite later from' payload' s' ≡ none)
unfolding handle_invite get_room
handle_invite-again now later from from' payload payload' s s' made same =
    let held : lookup payload.invite_room_id s'.rooms ≡ some (placeholder now from payload) =
      ap (λ (x : RoomStore). lookup payload.invite_room_id x.rooms)
        (sym
          (invite_found-eq-some now from payload s s' (lookup payload.invite_room_id s.rooms) made))
      ∙ lookup-insert_self payload.invite_room_id (placeholder now from payload) s.rooms in
    (held, rw (same, held) refl)

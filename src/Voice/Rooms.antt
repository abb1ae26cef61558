-- ===== src/Voice/Rooms.antt =====
-- capabilities/voice/src/state.rs: rooms in memory. The hash map of rooms is kept in the order of its
-- keys, where the code visits it in any order. The clock and the fresh ids are arguments.
pub mod Sweeps
pub mod Invites
pub mod Invariant
pub mod Joining
pub mod Deadlock
pub mod Removal
use howm.Base.{
  ℕ, ◌+◌, ◌-◌, ◌%◌, ◌^◌, Bool, true, false, not, ◌&&◌, ◌||◌, Option, none, some, List, [], ◌∷◌,
  ◌++◌, Text, bytes_ord, ◌==◌, Map, lookup, insert, remove, Result, ok, err, unwrap_or, map, filter,
  any, contains, length, leb, ltb, if◌then◌else◌,
}

pub record VoiceConfig : Type 0 where
  pub max_room_size : ℕ
  pub room_timeout_secs : ℕ
  pub invite_timeout_secs : ℕ

pub record RoomMember : Type 0 where
  pub peer_id : Text
  pub joined_at : ℕ
  pub is_muted : Bool

pub record Room : Type 0 where
  pub room_id : Text
  pub name : Option Text
  pub created_by : Text
  pub created_at : ℕ
  pub members : List RoomMember
  pub invited : List Text
  pub max_members : ℕ

pub record RoomStore : Type 0 where
  pub rooms : Map Text Room
  pub config : VoiceConfig

pub data RoomError : Type 0 where
  room_not_found not_invited room_full not_creator not_a_member : RoomError

abbrev pub default_config : VoiceConfig
default_config = record { max_room_size = 10; room_timeout_secs = 3600; invite_timeout_secs = 300 }

abbrev pub new_store : VoiceConfig → RoomStore
new_store config = record { rooms = []; config = config }

abbrev pub new_member : ℕ → Text → RoomMember
new_member now p = record { peer_id = p; joined_at = now; is_muted = false }

abbrev pub is_empty {ℓ} : {A : Type ℓ} → List A → Bool
is_empty [] = true
is_empty (x ∷ xs) = false

abbrev pub is_member : Text → Room → Bool
is_member p r = any (λ m. m.peer_id == p) r.members

abbrev pub is_invited : Text → Room → Bool
is_invited p r = any (λ i. i == p) r.invited

-- A room of another node that holds an invitation: its members are not known here.
abbrev pub is_placeholder : Room → Bool
is_placeholder r = is_empty r.members && not (is_empty r.invited)

abbrev pub put_room : Text → Room → RoomStore → RoomStore
put_room id r s = record s { rooms = insert id r s.rooms }

abbrev pub drop_room : Text → RoomStore → RoomStore
drop_room id s = record s { rooms = remove id s.rooms }

-- A room by its id, or the error.
abbrev pub on_room {ℓ} :
    {A : Type ℓ}
    → Option Room
    → RoomStore
    → (Room → RoomStore × Result RoomError A)
    → RoomStore × Result RoomError A
on_room none s f = (s, err room_not_found)
on_room (some r) s f = f r

unfoldable pub create_room :
    Text → ℕ → Text → Option Text → List Text → Option ℕ → RoomStore → RoomStore × Room
create_room id now creator name invited max_members s =
    let room : Room = record {
      room_id = id;
      name = name;
      created_by = creator;
      created_at = now;
      members = new_member now creator ∷ [];
      invited = invited;
      max_members = unwrap_or max_members s.config.max_room_size;
    } in
    (put_room id room s, room)

unfoldable pub get_room : Text → RoomStore → Option Room
get_room id s = lookup id s.rooms

unfoldable pub list_rooms_for_peer : Text → RoomStore → List Room
list_rooms_for_peer p s =
    filter (λ r. is_member p r || is_invited p r || is_placeholder r) (map (λ e. e.1) s.rooms)

-- Off the list of invitations, on the list of members.
abbrev pub admit : ℕ → Text → Room → Room
admit now p r = record r {
  invited = filter (λ i. not (i == p)) r.invited;
  members = r.members ++ new_member now p ∷ [];
}

abbrev pub join_found : ℕ → Text → Text → RoomStore → Room → RoomStore × Result RoomError Room
join_found now id p s r =
    if not (is_placeholder r) && not (is_invited p r)
    then (s, err not_invited)
    else if leb r.max_members (length r.members)
    then (s, err room_full)
    else if is_member p r
    then (s, ok r)
    else (put_room id (admit now p r) s, ok (admit now p r))

unfoldable pub join_room : ℕ → Text → Text → RoomStore → RoomStore × Result RoomError Room
join_room now id p s = on_room (lookup id s.rooms) s (join_found now id p s)

abbrev pub without : Text → Room → Room
without p r = record r { members = filter (λ m. not (m.peer_id == p)) r.members }

-- True where the last member left.
abbrev pub leave_found : Text → Text → RoomStore → Room → RoomStore × Result RoomError Bool
leave_found id p s r =
    if is_empty (without p r).members
    then (drop_room id s, ok true)
    else (put_room id (without p r) s, ok false)

unfoldable pub leave_room : Text → Text → RoomStore → RoomStore × Result RoomError Bool
leave_room id p s = on_room (lookup id s.rooms) s (leave_found id p s)

abbrev pub close_found : Text → Text → RoomStore → Room → RoomStore × Result RoomError Room
close_found id p s r =
    if not (r.created_by == p) then (s, err not_creator) else (drop_room id s, ok r)

unfoldable pub close_room : Text → Text → RoomStore → RoomStore × Result RoomError Room
close_room id p s = on_room (lookup id s.rooms) s (close_found id p s)

-- One round of the loop of `invite_peers`.
abbrev pub invite_one : Text → Room → Room
invite_one p r =
    if not (is_invited p r) && not (is_member p r)
    then record r { invited = r.invited ++ p ∷ [] }
    else r

unfoldable pub invite_each : List Text → Room → Room
invite_each [] r = r
invite_each (p ∷ ps) r = invite_each ps (invite_one p r)

unfoldable pub invite_peers : Text → List Text → RoomStore → RoomStore × Result RoomError Room
unfolding invite_each
invite_peers id ps s =
    on_room (lookup id s.rooms) s (λ r. (put_room id (invite_each ps r) s, ok (invite_each ps r)))

-- The first member with the id.
unfoldable pub mute_first : Text → Bool → List RoomMember → List RoomMember
mute_first p b [] = []
mute_first p b (m ∷ ms) =
    if m.peer_id == p then record m { is_muted = b } ∷ ms else m ∷ mute_first p b ms

abbrev pub muted_room : Text → Bool → Room → Room
muted_room p b r = record r { members = mute_first p b r.members }

abbrev pub mute_found : Text → Text → Bool → RoomStore → Room → RoomStore × Result RoomError Room
mute_found id p b s r =
    if is_member p r
    then (put_room id (muted_room p b r) s, ok (muted_room p b r))
    else (s, err not_a_member)

unfoldable pub set_mute : Text → Text → Bool → RoomStore → RoomStore × Result RoomError Room
set_mute id p b s = on_room (lookup id s.rooms) s (mute_found id p b s)

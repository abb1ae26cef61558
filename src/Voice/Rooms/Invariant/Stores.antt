-- ===== src/Voice/Rooms/Invariant/Stores.antt =====
-- The operations on the stored rooms keep all rooms sound.
use howm.Base.{
  ℕ, subst, Bool, true, false, not, ◌&&◌, Option, none, some, List, [], ◌∷◌, Text, bytes_ord, ◌==◌,
  Map, lookup, insert, remove, filter, All, length, leb, Bool-cases, Option-cases, Result, inl, inr,
  ok,
}
use howm.Voice.Rooms.{
  Room, RoomStore, invite_peers, invite_each, put_room, RoomError, join_found, leave_found,
  close_found, mute_found, is_placeholder, muted_room, is_invited, is_member, admit, without,
  on_room, is_empty,
}
use howm.Voice.Rooms.Sweeps.{expire_rooms, leave_each, remove_destroyed, has_expired}
use howm.Voice.Rooms.Invariant.{
  IsSound, admit-IsSound, without-IsSound, muted_room-IsSound, invite_each-IsSound,
}

abbrev pub AllSound : Map Text Room → Type 0
AllSound rooms = All (λ e. IsSound e.1) rooms

abbrev FoundSound : Option Room → Type 0
FoundSound none = Unit {0}
FoundSound (some r) = IsSound r

pub lookup-AllSound :
    (id : Text) (rooms : Map Text Room) → AllSound rooms → FoundSound (lookup id rooms)
unfolding lookup
lookup-AllSound id [] h = tt
lookup-AllSound id ((j, r) ∷ rooms) h = elim (Bool-cases (j == id)) [
  | inl e ↦ rw e h.0
  | inr e ↦ rw e (lookup-AllSound id rooms h.1)
]

pub insert-AllSound :
    (id : Text) (r : Room) (rooms : Map Text Room)
    → IsSound r
    → AllSound rooms
    → AllSound (insert id r rooms)
unfolding insert
insert-AllSound id r [] k h = (k, tt)
insert-AllSound id r ((j, q) ∷ rooms) k h = elim (Bool-cases (j == id)) [
  | inl e ↦ rw e (k, h.1)
  | inr e ↦ rw e (elim (Bool-cases (bytes_ord.le id j)) [
    | inl f ↦ rw f (k, (h.0, h.1))
    | inr f ↦ rw f (h.0, insert-AllSound id r rooms k h.1)
  ])
]

pub remove-AllSound :
    (id : Text) (rooms : Map Text Room) → AllSound rooms → AllSound (remove id rooms)
unfolding remove
remove-AllSound id [] h = tt
remove-AllSound id ((j, q) ∷ rooms) h = elim (Bool-cases (j == id)) [
  | inl e ↦ rw e (remove-AllSound id rooms h.1)
  | inr e ↦ rw e (h.0, remove-AllSound id rooms h.1)
]

-- An operation on a room that leaves the store sound where the room is.
pub on_room-AllSound :
    {A : Type 0} (id : Text) (s : RoomStore) (f : Room → RoomStore × Result RoomError A)
    → AllSound s.rooms
    → ((r : Room) → IsSound r → AllSound (f r).0.rooms)
    → AllSound (on_room (lookup id s.rooms) s f).0.rooms
on_room-AllSound id s f h step = elim (Option-cases (lookup id s.rooms)) [
  | inl e ↦ rw e h
  | inr (r, e) ↦ rw e (step r (subst FoundSound e (lookup-AllSound id s.rooms h)))
]

pub filter-AllSound :
    (f : Text × Room → Bool) (rooms : Map Text Room) → AllSound rooms → AllSound (filter f rooms)
filter-AllSound f [] h = tt
filter-AllSound f (e ∷ rooms) h = elim (Bool-cases (f e)) [
  | inl k ↦ rw k (h.0, filter-AllSound f rooms h.1)
  | inr k ↦ rw k (filter-AllSound f rooms h.1)
]

pub expire_rooms-AllSound :
    (now timeout : ℕ) (rooms : Map Text Room)
    → AllSound rooms
    → AllSound (expire_rooms now timeout rooms).0
unfolding expire_rooms
expire_rooms-AllSound now timeout [] h = tt
expire_rooms-AllSound now timeout ((id, r) ∷ rooms) h =
    elim (Bool-cases (has_expired now timeout r)) [
      | inl e ↦ rw e (h.0, expire_rooms-AllSound now timeout rooms h.1)
      | inr e ↦ rw e (h.0, expire_rooms-AllSound now timeout rooms h.1)
    ]

pub leave_each-AllSound :
    (p : Text) (rooms : Map Text Room) → AllSound rooms → AllSound (leave_each p rooms)
unfolding leave_each
leave_each-AllSound p [] h = tt
leave_each-AllSound p ((id, r) ∷ rooms) h = elim (Bool-cases (is_member p r)) [
  | inl e ↦ rw e (without-IsSound p r h.0, leave_each-AllSound p rooms h.1)
  | inr e ↦ rw e (h.0, leave_each-AllSound p rooms h.1)
]

pub remove_destroyed-AllSound :
    (affected : List (Text × Bool)) (rooms : Map Text Room)
    → AllSound rooms
    → AllSound (remove_destroyed affected rooms)
unfolding remove_destroyed
remove_destroyed-AllSound [] rooms h = h
remove_destroyed-AllSound ((id, true) ∷ more) rooms h =
    remove_destroyed-AllSound more (remove id rooms) (remove-AllSound id rooms h)
remove_destroyed-AllSound ((id, false) ∷ more) rooms h = remove_destroyed-AllSound more rooms h

pub join_found-AllSound :
    (now : ℕ) (id p : Text) (s : RoomStore) (r : Room)
    → AllSound s.rooms
    → IsSound r
    → AllSound (join_found now id p s r).0.rooms
join_found-AllSound now id p s r h k =
    elim (Bool-cases (not (is_placeholder r) && not (is_invited p r))) [
      | inl e ↦ rw e h
      | inr e ↦ rw e (elim (Bool-cases (leb r.max_members (length r.members))) [
        | inl f ↦ rw f h
        | inr f ↦ rw f (elim (Bool-cases (is_member p r)) [
          | inl g ↦ rw g h
          | inr g ↦
              rw g (insert-AllSound id (admit now p r) s.rooms (admit-IsSound now p r k g f) h)
        ])
      ])
    ]

pub leave_found-AllSound :
    (id p : Text) (s : RoomStore) (r : Room)
    → AllSound s.rooms
    → IsSound r
    → AllSound (leave_found id p s r).0.rooms
leave_found-AllSound id p s r h k = elim (Bool-cases (is_empty (without p r).members)) [
  | inl e ↦ rw e (remove-AllSound id s.rooms h)
  | inr e ↦ rw e (insert-AllSound id (without p r) s.rooms (without-IsSound p r k) h)
]

pub close_found-AllSound :
    (id p : Text) (s : RoomStore) (r : Room)
    → AllSound s.rooms
    → AllSound (close_found id p s r).0.rooms
close_found-AllSound id p s r h = elim (Bool-cases (not (r.created_by == p))) [
  | inl e ↦ rw e h
  | inr e ↦ rw e (remove-AllSound id s.rooms h)
]

pub mute_found-AllSound :
    (id p : Text) (b : Bool) (s : RoomStore) (r : Room)
    → AllSound s.rooms
    → IsSound r
    → AllSound (mute_found id p b s r).0.rooms
mute_found-AllSound id p b s r h k = elim (Bool-cases (is_member p r)) [
  | inl e ↦ rw e (insert-AllSound id (muted_room p b r) s.rooms (muted_room-IsSound p b r k) h)
  | inr e ↦ rw e h
]

pub invite_peers-AllSound :
    (id : Text) (ps : List Text) (s : RoomStore)
    → AllSound s.rooms
    → AllSound (invite_peers id ps s).0.rooms
unfolding invite_peers
invite_peers-AllSound id ps s h =
    on_room-AllSound id s (λ r. (put_room id (invite_each ps r) s, ok (invite_each ps r))) h
      (λ r k. insert-AllSound id (invite_each ps r) s.rooms (invite_each-IsSound ps r k) h)

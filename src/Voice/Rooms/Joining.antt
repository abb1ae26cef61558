-- ===== src/Voice/Rooms/Joining.antt =====
-- Who is in a room after joins and leaves.
use howm.Base.{
  ℕ, ◌≡◌, refl, ap, ◌∙◌, Bool, false, not, ◌&&◌, ◌||◌, none, some, List, [], ◌∷◌, ◌++◌, Text,
  bytes_ord, ◌==◌, ==_self, lookup, lookup-insert, lookup-remove, filter, any, ok, err,
  if◌then◌else◌, leb, length, arith, Bool-cases, inl, inr, append-nil,
}
use howm.Voice.Rooms.{
  RoomMember, Room, RoomStore, not_invited, room_full, join_room, leave_room, admit, without,
  new_member, put_room, is_member, is_invited, is_placeholder, is_empty, get_room,
}

abbrev uninvited : Text → Room → List Text
uninvited p r = filter (λ i. not (i == p)) r.invited

any-append :
    {A : Type 0} (f : A → Bool) (xs : List A) (y : A) → any f (xs ++ y ∷ []) ≡ (any f xs || f y)
any-append f [] y = ground arith
any-append f (x ∷ xs) y = ground (arith, any-append f xs y)

any-filter-not :
    (p q : Text) (is : List Text)
    → any (λ i. i == q) (filter (λ i. not (i == p)) is) ≡ (any (λ i. i == q) is && not (p == q))
any-filter-not p q [] = refl
any-filter-not p q (i ∷ is) = ground (
  arith,
  bytes_ord.eqb_iff i p,
  bytes_ord.eqb_iff i q,
  bytes_ord.eqb_iff p q,
  any-filter-not p q is,
)

is_empty-append : {A : Type 0} (xs : List A) (y : A) → is_empty (xs ++ y ∷ []) ≡ false
is_empty-append [] y = refl
is_empty-append (x ∷ xs) y = refl

-- The room that a peer has joined: the peer and the former members are its members, and all that were
-- invited are, but the peer.
admit-members :
    (now : ℕ) (p q : Text) (r : Room)
    → (is_member q (admit now p r) ≡ (is_member q r || p == q))
      × (is_invited q (admit now p r) ≡ (is_invited q r && not (p == q)))
admit-members now p q r =
    (any-append (λ m. m.peer_id == q) r.members (new_member now p), any-filter-not p q r.invited)

-- How a room answers a peer that is not a member: the room has the peer as a member and no longer as
-- invited where the peer is invited, or the room is a placeholder, and there is room; else it is as before.
pub join_room-outcomes :
    (now : ℕ) (id p : Text) (s : RoomStore) (r : Room)
    → lookup id s.rooms ≡ some r
    → is_member p r ≡ false
    → join_room now id p s ≡ (
        if is_placeholder r || is_invited p r
        then (if leb r.max_members (length r.members)
            then (s, err room_full)
            else (put_room id (admit now p r) s, ok (admit now p r)))
        else (s, err not_invited))
unfolding join_room
join_room-outcomes now id p s r found absent = rw (found, absent) (ground arith)

joined_as :
    (now : ℕ) (id p : Text) (s : RoomStore) (r after : Room)
    → lookup id s.rooms ≡ some r
    → is_member p r ≡ false
    → (join_room now id p s).1 ≡ ok after
    → join_room now id p s ≡ (put_room id (admit now p r) s, ok (admit now p r))
joined_as now id p s r after found absent joined = ground (arith, split, joined)
  where
    split : join_room now id p s ≡ (
        if is_placeholder r || is_invited p r
        then (if leb r.max_members (length r.members)
            then (s, err room_full)
            else (put_room id (admit now p r) s, ok (admit now p r)))
        else (s, err not_invited))
    split = join_room-outcomes now id p s r found absent

lookup-put_room :
    (id : Text) (r : Room) (s : RoomStore) → lookup id (put_room id r s).rooms ≡ some r
lookup-put_room id r s = lookup-insert id id r s.rooms ∙ rw (==_self id) refl

join_room-admitted :
    (now later : ℕ) (id p : Text) (s : RoomStore) (r : Room)
    → (join_room later id p (put_room id (admit now p r) s)).1 ≡ err not_invited
unfolding join_room
join_room-admitted now later id p s r =
    rw
      (
        lookup-put_room id (admit now p r) s,
        is_empty-append r.members (new_member now p),
        (admit-members now p p r).1,
        ==_self p,
      )
      (ground arith)

-- A peer that was no member and joins is refused when it joins again: as not invited, not as a member.
pub join_room-again :
    (now later : ℕ) (id p : Text) (s : RoomStore) (r after : Room)
    → lookup id s.rooms ≡ some r
    → is_member p r ≡ false
    → (join_room now id p s).1 ≡ ok after
    → (join_room later id p (join_room now id p s).0).1 ≡ err not_invited
join_room-again now later id p s r after found absent joined =
    ap (λ o. (join_room later id p o.0).1) (joined_as now id p s r after found absent joined)
    ∙ join_room-admitted now later id p s r

filter-append :
    {A : Type 0} (f : A → Bool) (xs : List A) (y : A)
    → filter f (xs ++ y ∷ []) ≡ filter f xs ++ (if f y then y ∷ [] else [])
filter-append f [] y = ground arith
filter-append f (x ∷ xs) y = ground (arith, filter-append f xs y)

filter-absent :
    (p : Text) (ms : List RoomMember)
    → any (λ m. m.peer_id == p) ms ≡ false
    → filter (λ m. not (m.peer_id == p)) ms ≡ ms
filter-absent p [] h = refl
filter-absent p (m ∷ ms) h = ground (arith, filter-absent p ms)

without-admit :
    (now : ℕ) (p : Text) (r : Room)
    → is_member p r ≡ false
    → (without p (admit now p r)).members ≡ r.members
without-admit now p r absent =
    filter-append (λ m. not (m.peer_id == p)) r.members (new_member now p)
    ∙ rw (filter-absent p r.members absent, ==_self p) (append-nil r.members)

leave_room-admitted :
    (now : ℕ) (id p : Text) (s : RoomStore) (r : Room)
    → is_member p r ≡ false
    → get_room id (leave_room id p (put_room id (admit now p r) s)).0
      ≡ (if is_empty r.members then none else some (record r { invited = uninvited p r }))
unfolding leave_room get_room
leave_room-admitted now id p s r absent =
    rw (lookup-put_room id (admit now p r) s, without-admit now p r absent)
      (elim (Bool-cases (is_empty r.members)) [
        | inl e ↦
            rw e (lookup-remove id id (put_room id (admit now p r) s).rooms ∙ rw (==_self id) refl)
        | inr e ↦ rw e (
            lookup-put_room id (record r { invited = uninvited p r })
              (put_room id (admit now p r) s))
      ])

-- A peer that was no member, joins and leaves: the room is as before, but without the peer's
-- invitation. A room that had no members is gone.
pub leave_room-join_room :
    (now : ℕ) (id p : Text) (s : RoomStore) (r after : Room)
    → lookup id s.rooms ≡ some r
    → is_member p r ≡ false
    → (join_room now id p s).1 ≡ ok after
    → get_room id (leave_room id p (join_room now id p s).0).0
      ≡ (if is_empty r.members then none else some (record r { invited = uninvited p r }))
leave_room-join_room now id p s r after found absent joined =
    ap (λ o. get_room id (leave_room id p o.0).0) (joined_as now id p s r after found absent joined)
    ∙ leave_room-admitted now id p s r absent

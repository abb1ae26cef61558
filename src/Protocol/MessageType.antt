-- ===== src/Protocol/MessageType.antt =====
-- node/p2pcd-types/src/wire.rs: `MessageType` and its numbers.
use howm.Base.{ℕ, ◌≤◌, ◌≡◌, ◌↔◌, Bool, true, Option, none, some, nat_eq, leb, if◌then◌else◌, arith}

pub data MessageType : Type 0 where
  offer confirm close ping pong : MessageType

-- The discriminants of `repr(u64)`.
unfoldable pub to_u64 : MessageType → ℕ
to_u64 offer = 1
to_u64 confirm = 2
to_u64 close = 3
to_u64 ping = 4
to_u64 pong = 5

unfoldable pub from_u64 : ℕ → Option MessageType
from_u64 v =
    if nat_eq v 1
    then some offer
    else if nat_eq v 2
    then some confirm
    else if nat_eq v 3
    then some close
    else if nat_eq v 4
    then some ping
    else if nat_eq v 5
    then some pong
    else none

unfoldable pub is_protocol : MessageType → Bool
unfolding to_u64
is_protocol t = leb (to_u64 t) 5

pub from_u64-to_u64 : (t : MessageType) → from_u64 (to_u64 t) ≡ some t
unfolding from_u64 to_u64
from_u64-to_u64 t = ground arith

-- Numbers above 5 are no protocol message.
pub from_u64_above : (v : ℕ) → 6 ≤ v → from_u64 v ≡ none
unfolding from_u64
from_u64_above v h = ground arith

-- A number is read as a message type exactly when it is that type's number, and each type read is
-- a protocol message.
pub from_u64_iff :
    (v : ℕ) (t : MessageType) → ((from_u64 v ≡ some t) ↔ (v ≡ to_u64 t)) × (is_protocol t ≡ true)
unfolding from_u64 is_protocol
from_u64_iff v t = ground arith

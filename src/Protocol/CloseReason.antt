-- ===== src/Protocol/CloseReason.antt =====
-- node/p2pcd-types/src/wire.rs: `CloseReason` and its numbers.
use howm.Base.{ℕ, ◌≡◌, ◌↔◌, Option, none, some, nat_eq, if◌then◌else◌, arith}

pub data CloseReason : Type 0 where
  normal no_match auth_failure version_unsupported timeout error : CloseReason

unfoldable pub to_u64 : CloseReason → ℕ
to_u64 normal = 0
to_u64 no_match = 1
to_u64 auth_failure = 2
to_u64 version_unsupported = 3
to_u64 timeout = 4
to_u64 error = 255

unfoldable pub from_u64 : ℕ → Option CloseReason
from_u64 v =
    if nat_eq v 0
    then some normal
    else if nat_eq v 1
    then some no_match
    else if nat_eq v 2
    then some auth_failure
    else if nat_eq v 3
    then some version_unsupported
    else if nat_eq v 4
    then some timeout
    else if nat_eq v 255
    then some error
    else none

pub from_u64-to_u64 : (r : CloseReason) → from_u64 (to_u64 r) ≡ some r
unfolding from_u64 to_u64
from_u64-to_u64 r = ground arith

-- A number is read as a reason exactly when it is that reason's number.
pub from_u64_iff : (v : ℕ) (r : CloseReason) → (from_u64 v ≡ some r) ↔ (v ≡ to_u64 r)
unfolding from_u64 to_u64
from_u64_iff v r = ground arith

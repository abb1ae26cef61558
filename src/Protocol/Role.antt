-- ===== src/Protocol/Role.antt =====
-- node/p2pcd-types/src/wire.rs: `Role`, its numbers, and which roles match.
use howm.Base.{
  ℕ, ◌≡◌, refl, ◌↔◌, Bool, true, false, ◌&&◌, Option, none, some, nat_eq, if◌then◌else◌, arith,
}

pub data Role : Type 0 where
  provide consume both : Role

unfoldable pub to_u64 : Role → ℕ
to_u64 provide = 1
to_u64 consume = 2
to_u64 both = 3

unfoldable pub from_u64 : ℕ → Option Role
from_u64 v =
    if nat_eq v 1
    then some provide
    else if nat_eq v 2
    then some consume
    else if nat_eq v 3
    then some both
    else none

-- The two flags count only for two `both` sides.
unfoldable pub matches : Role → Role → Bool → Bool → Bool
matches provide consume m n = true
matches consume provide m n = true
matches both provide m n = true
matches provide both m n = true
matches both consume m n = true
matches consume both m n = true
matches both both m n = m && n
matches provide provide m n = false
matches consume consume m n = false

pub from_u64-to_u64 : (r : Role) → from_u64 (to_u64 r) ≡ some r
unfolding from_u64 to_u64
from_u64-to_u64 r = ground arith

-- A number is read as a role exactly when it is that role's number.
pub from_u64_iff : (v : ℕ) (r : Role) → (from_u64 v ≡ some r) ↔ (v ≡ to_u64 r)
unfolding from_u64 to_u64
from_u64_iff v r = ground arith

-- Both sides of a session get the same answer.
pub matches_comm : (r s : Role) (m n : Bool) → matches r s m n ≡ matches s r n m
unfolding matches
matches_comm provide provide m n = refl
matches_comm provide consume m n = refl
matches_comm provide both m n = refl
matches_comm consume provide m n = refl
matches_comm consume consume m n = refl
matches_comm consume both m n = refl
matches_comm both provide m n = refl
matches_comm both consume m n = refl
matches_comm both both m n = ground arith

-- ===== src/Protocol/Cbor/Codec.antt =====
-- What node/p2pcd-types/src/cbor.rs takes from other packages: `ciborium`'s writer and reader, and the
-- SHA-256 of `sha2`.
use howm.Base.{◌≡◌, Option, some, Bytes}
use howm.Protocol.Cbor.Values.{Value}

-- The writer does not fail on these values, and the reader gives back what was written.
pub record Codec : Type 0 where
  pub to_bytes : Value → Bytes
  pub from_bytes : Bytes → Option Value
  pub round_trip : (v : Value) → from_bytes (to_bytes v) ≡ some v
  pub sha256 : Bytes → Bytes

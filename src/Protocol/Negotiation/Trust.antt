-- ===== src/Protocol/Negotiation/Trust.antt =====
-- The deprecated policies.
use howm.Base.{◌≡◌, false, if◌then◌else◌, bytes_ord, ◌==◌, insert, lookup-insert, arith}
use howm.Protocol.Manifest.{PeerId}
use howm.Protocol.Negotiation.{blocked, TrustPolicy, evaluate}

-- An override that blocks a peer denies that peer, and changes the answer for no other.
pub evaluate-blocked :
    (t : TrustPolicy) (p q : PeerId)
    → evaluate (record t { overrides = insert p blocked t.overrides }) q
      ≡ (if p == q then false else evaluate t q)
unfolding evaluate
evaluate-blocked t p q = ground (arith, lookup-insert q p blocked t.overrides)

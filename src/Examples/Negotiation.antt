-- ===== src/Examples/Negotiation.antt =====
-- The negotiation between the two peers.
use howm.Base.{
  ◌≡◌, refl, true, false, [], ◌∷◌, ◌&&◌, bytes_ord, contains, any, ◌==◌, StrictSorted, sort_by,
}
use howm.Protocol.Role
use howm.Protocol.Role.{both, provide, matches_comm}
use howm.Protocol.Scope.{reconcile}
use howm.Protocol.Scope.Laws.{reconcile_comm}
use howm.Protocol.Negotiation.{compute_intersection, heartbeat_name, TrustPolicy, public}
use howm.Protocol.Negotiation.Members.{agrees, contains-compute_intersection}
use howm.Protocol.Negotiation.Symmetry.{
  compute_intersection-StrictSorted, compute_intersection_comm,
}
use howm.Examples.Manifests.{
  provider, reader, allow_all, allow_none, feed_name, feed_scope, feed_scope-IsNumeric,
}

both_active : compute_intersection provider reader allow_all ≡ heartbeat_name ∷ feed_name ∷ []
unfolding compute_intersection sort_by Role.matches
both_active = refl

-- The gate keeps the feed out, and never the heartbeat.
heartbeat_only : compute_intersection provider reader allow_none ≡ heartbeat_name ∷ []
unfolding compute_intersection sort_by Role.matches
heartbeat_only = refl

compute_intersection_comm_example :
    compute_intersection provider reader allow_all ≡ compute_intersection reader provider allow_all
compute_intersection_comm_example =
    compute_intersection_comm provider reader allow_all allow_all (refl, (refl, tt))
      (refl, (refl, tt)) (λ n h. refl)

contains-compute_intersection_example :
    contains feed_name (compute_intersection provider reader allow_all)
    ≡ any
        (λ l. l.name == feed_name && agrees allow_all reader.peer_id reader.capabilities l)
        provider.capabilities
contains-compute_intersection_example =
    contains-compute_intersection feed_name provider reader allow_all

compute_intersection-StrictSorted_example :
    StrictSorted (λ n. n) (compute_intersection provider reader allow_all)
compute_intersection-StrictSorted_example =
    compute_intersection-StrictSorted provider reader allow_all (refl, (refl, tt))

matches_comm_example : Role.matches both provide true false ≡ Role.matches provide both false true
matches_comm_example = matches_comm both provide true false

abbrev open_policy : TrustPolicy
open_policy = record { default_tier = public; overrides = []; friends = [] }

reconciled_rate : (reconcile (feed_scope 10) (feed_scope 5)).rate_limit ≡ 5
unfolding reconcile
reconciled_rate = refl

reconcile_comm_example :
    reconcile (feed_scope 10) (feed_scope 5) ≡ reconcile (feed_scope 5) (feed_scope 10)
reconcile_comm_example =
    reconcile_comm (feed_scope 10) (feed_scope 5) (feed_scope-IsNumeric 10) (feed_scope-IsNumeric 5)

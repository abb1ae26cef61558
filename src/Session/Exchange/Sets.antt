-- ===== src/Session/Exchange/Sets.antt =====
-- The final active set: what both sides' sets have in common.
use howm.Base.{
  ◌≡◌, sym, ◌∙◌, Bool, ◌&&◌, List, Text, bytes_ord, contains, contains-sort, contains-filter,
  filter, filter-NoRepeats, NoRepeats, StrictSorted-Distinct, sort-eq, arith,
}
use howm.Protocol.Manifest.{DiscoveryManifest, HasDistinctNames}
use howm.Protocol.Negotiation.{TrustGate, compute_intersection}
use howm.Protocol.Negotiation.Symmetry.{compute_intersection-StrictSorted}
use howm.Session.Exchange.{intersect_sets}

-- The intersection has the names that are in both lists.
pub contains-intersect_sets :
    (n : Text) (a b : List Text) → contains n (intersect_sets a b) ≡ (contains n a && contains n b)
unfolding intersect_sets
contains-intersect_sets n a b =
    contains-sort n (filter (λ m. contains m b) a) ∙ contains-filter (λ m. contains m b) n a

and_comm : (a b : Bool) → (a && b) ≡ (b && a)
and_comm a b = ground arith

-- Two lists without repetitions have one intersection, whichever side computes it.
pub intersect_sets_comm :
    (a b : List Text) → NoRepeats a → NoRepeats b → intersect_sets a b ≡ intersect_sets b a
unfolding intersect_sets
intersect_sets_comm a b d e =
    sort-eq (filter (λ m. contains m b) a) (filter (λ m. contains m a) b)
      (filter-NoRepeats (λ m. contains m b) a d) (filter-NoRepeats (λ m. contains m a) b e)
      λ n.
        contains-filter (λ m. contains m b) n a
        ∙ and_comm (contains n a) (contains n b)
        ∙ sym (contains-filter (λ m. contains m a) n b)

pub compute_intersection-NoRepeats :
    (local remote : DiscoveryManifest) (gate : TrustGate)
    → HasDistinctNames local
    → NoRepeats (compute_intersection local remote gate)
compute_intersection-NoRepeats local remote gate d =
    StrictSorted-Distinct (λ n. n) (compute_intersection local remote gate)
      (compute_intersection-StrictSorted local remote gate d)

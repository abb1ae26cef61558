-- ===== src/Session/Exchange/Params.antt =====
-- The parameters that the two ends of an exchange accept.
pub mod Texts
use howm.Base.{
  ℕ, ◌≤◌, ◌≡◌, ◌≢◌, ◌⊎◌, refl, sym, ◌∙◌, ap, ap₂, subst, Bool, true, false, ◌&&◌, Option, none,
  some, List, [], ◌∷◌, Text, Map, IsMap, Map-eq, lookup, insert_each-IsMap, lookup-insert_each,
  unwrap_or, bytes_ord, contains, if◌then◌else◌, arith,
}
use howm.Protocol.Manifest.{DiscoveryManifest, find_cap}
use howm.Protocol.Negotiation.{TrustGate, compute_intersection}
use howm.Protocol.Scope.{
  ScopeParams, text, default_params, reconcile, get_ext, merge_key, reconcile_scope_value,
  reconcile_uint_zero_unlimited,
}
use howm.Protocol.Scope.Laws.{IsNumeric, reconcile_comm, get_ext-reconcile}
use howm.Session.Exchange.{
  scope_of, reconciled, confirmed, reconcile_params, reconcile_confirm_params, intersect_sets,
  optional,
}
use howm.Session.Exchange.Sets.{contains-intersect_sets}
use howm.Session.Exchange.Agreement.{final_params}

-- Each name of the active set has the reconciled scopes, and no other name has any.
pub lookup-reconcile_params :
    (n : Text) (set : List Text) (local remote : DiscoveryManifest)
    → lookup n (reconcile_params set local remote)
      ≡ (if contains n set then some (reconciled local remote n) else none)
unfolding reconcile_params lookup
lookup-reconcile_params n set local remote = lookup-insert_each (reconciled local remote) n set []

lookup-optional :
    (n : Text) (m : Map Text ScopeParams) → lookup n (unwrap_or (optional m) []) ≡ lookup n m
lookup-optional n [] = refl
lookup-optional n (e ∷ es) = refl

abbrev pub set_of : DiscoveryManifest → DiscoveryManifest → TrustGate → List Text
set_of = compute_intersection

-- What a side accepts when the other sent it its CONFIRM: for each name of the final set its own
-- reconciliation with the other's, and nothing for other names.
pub lookup-final_params :
    (n : Text) (a b from_a from_b : DiscoveryManifest) (gate_a gate_b : TrustGate)
    → let set_a = set_of a from_b gate_a in
      let set_b = set_of b from_a gate_b in
      lookup n (final_params a from_b gate_a set_b (optional (reconcile_params set_b b from_a))) ≡ (
        if contains n set_a && contains n set_b
        then some (reconcile (reconciled a from_b n) (reconciled b from_a n))
        else none)
unfolding reconcile_confirm_params lookup
lookup-final_params n a b from_a from_b gate_a gate_b =
    let set_a = set_of a from_b gate_a in
    let set_b = set_of b from_a gate_b in
    let sent_b = reconcile_params set_b b from_a in
    lookup-insert_each
      (confirmed (reconcile_params set_a a from_b) (unwrap_or (optional sent_b) [])) n
      (intersect_sets set_a set_b) []
    ∙ rw (contains-intersect_sets n set_a set_b, lookup-optional n sent_b)
        (rw (lookup-reconcile_params n set_a a from_b, lookup-reconcile_params n set_b b from_a)
          (by_members (contains n set_a) (contains n set_b)))
  where
    by_members :
        (p q : Bool)
        → (if p && q
            then some (
                reconcile
                  (unwrap_or (if p then some (reconciled a from_b n) else none) default_params)
                  (unwrap_or (if q then some (reconciled b from_a n) else none) default_params))
            else none)
          ≡ (if p && q
              then some (reconcile (reconciled a from_b n) (reconciled b from_a n))
              else none)
    by_members true true = refl
    by_members true false = refl
    by_members false true = refl
    by_members false false = refl

final_params-IsMap :
    (a from_b : DiscoveryManifest) (gate : TrustGate) (set : List Text)
    (params : Option (Map Text ScopeParams))
    → IsMap (final_params a from_b gate set params)
unfolding reconcile_confirm_params
final_params-IsMap a from_b gate set params =
    let ours = reconcile_params (set_of a from_b gate) a from_b in
    insert_each-IsMap (confirmed ours (unwrap_or params []))
      (intersect_sets (set_of a from_b gate) set) [] tt

-- The two ends received each other's manifests, up to the order of the capabilities.
abbrev pub Exchanged :
    DiscoveryManifest → DiscoveryManifest → DiscoveryManifest → DiscoveryManifest → Type 0
Exchanged a b from_a from_b =
    (n : Text) → (find_cap n from_a ≡ find_cap n a) × (find_cap n from_b ≡ find_cap n b)

-- All scopes of a manifest are numeric.
abbrev pub HasNumericScopes : DiscoveryManifest → Type 0
HasNumericScopes m = (n : Text) → IsNumeric (scope_of (find_cap n m))

reconciled_comm :
    (a b from_a from_b : DiscoveryManifest) (n : Text)
    → Exchanged a b from_a from_b
    → HasNumericScopes a
    → HasNumericScopes b
    → reconciled a from_b n ≡ reconciled b from_a n
reconciled_comm a b from_a from_b n x na nb =
    rw ((x n).0, (x n).1)
      (reconcile_comm (scope_of (find_cap n a)) (scope_of (find_cap n b)) (na n) (nb n))

and_swap :
    {A : Type 0} (p q : Bool) (x y : A)
    → x ≡ y
    → (if p && q then some x else none) ≡ (if q && p then some y else none)
and_swap true true x y e = ap some e
and_swap true false x y e = refl
and_swap false true x y e = refl
and_swap false false x y e = refl

-- Where each side received the capabilities of the other and all scopes are numeric, both ends accept
-- the same parameters.
pub final_params_agree :
    (a b from_a from_b : DiscoveryManifest) (gate_a gate_b : TrustGate)
    → Exchanged a b from_a from_b
    → HasNumericScopes a
    → HasNumericScopes b
    → let set_a = set_of a from_b gate_a in
      let set_b = set_of b from_a gate_b in
      final_params a from_b gate_a set_b (optional (reconcile_params set_b b from_a))
      ≡ final_params b from_a gate_b set_a (optional (reconcile_params set_a a from_b))
final_params_agree a b from_a from_b gate_a gate_b x na nb =
    let set_a = set_of a from_b gate_a in
    let set_b = set_of b from_a gate_b in
    let sent_a = optional (reconcile_params set_a a from_b) in
    let sent_b = optional (reconcile_params set_b b from_a) in
    Map-eq (final_params a from_b gate_a set_b sent_b) (final_params b from_a gate_b set_a sent_a)
      (final_params-IsMap a from_b gate_a set_b sent_b)
      (final_params-IsMap b from_a gate_b set_a sent_a)
      λ n.
        let one = reconciled_comm a b from_a from_b n x na nb in
        lookup-final_params n a b from_a from_b gate_a gate_b
        ∙ and_swap (contains n set_a) (contains n set_b) _ _ (ap₂ reconcile one (sym one))
        ∙ sym (lookup-final_params n b a from_b from_a gate_b gate_a)

-- A limit that is set, and so not 0, is kept: what is accepted is a limit no looser.
abbrev pub Keeps : ℕ → ℕ → Type 0
Keeps limit accepted = (limit ≡ 0) ⊎ ((accepted ≢ 0) × (accepted ≤ limit))

uint-Keeps :
    (a b c : ℕ)
    → let r = reconcile_uint_zero_unlimited (reconcile_uint_zero_unlimited a b) c in
      Keeps a r × Keeps b r
unfolding reconcile_uint_zero_unlimited
uint-Keeps a b c = ground arith

-- Both limits of both sides are kept.
abbrev pub KeepsBoth : ScopeParams → ScopeParams → ScopeParams → Type 0
KeepsBoth mine theirs p =
    Keeps mine.rate_limit p.rate_limit
    × Keeps theirs.rate_limit p.rate_limit
    × Keeps mine.ttl p.ttl
    × Keeps theirs.ttl p.ttl

reconcile-KeepsBoth :
    (mine theirs u : ScopeParams) → KeepsBoth mine theirs (reconcile (reconcile mine theirs) u)
unfolding reconcile
reconcile-KeepsBoth mine theirs u =
    let rate = uint-Keeps mine.rate_limit theirs.rate_limit u.rate_limit in
    let life = uint-Keeps mine.ttl theirs.ttl u.ttl in (rate.0, rate.1, life.0, life.1)

-- Every parameter that a side accepts keeps both the rate limit and the lifetime of its own manifest
-- and of the one that it received, whatever the other side's CONFIRM says.
pub final_params-KeepsBoth :
    (n : Text) (a from_b : DiscoveryManifest) (gate : TrustGate) (set : List Text)
    (params : Option (Map Text ScopeParams)) (p : ScopeParams)
    → lookup n (final_params a from_b gate set params) ≡ some p
    → KeepsBoth (scope_of (find_cap n a)) (scope_of (find_cap n from_b)) p
unfolding reconcile_confirm_params lookup
final_params-KeepsBoth n a from_b gate set params p h =
    let set_a = set_of a from_b gate in
    let ours = reconcile_params set_a a from_b in
    let theirs = unwrap_or params [] in
    let final_set = intersect_sets set_a set in
    let found = sym (lookup-insert_each (confirmed ours theirs) n final_set []) ∙ h in
    let member : contains n set_a ≡ true =
      ground (arith, found, contains-intersect_sets n set_a set) in
    let mine : lookup n ours ≡ some (reconciled a from_b n) =
      lookup-reconcile_params n set_a a from_b ∙ rw member in
    let shape : reconcile (reconciled a from_b n) (unwrap_or (lookup n theirs) default_params) ≡ p =
      ground (arith, found, mine) in
    subst (KeepsBoth (scope_of (find_cap n a)) (scope_of (find_cap n from_b))) shape (
      reconcile-KeepsBoth (scope_of (find_cap n a)) (scope_of (find_cap n from_b))
        (unwrap_or (lookup n theirs) default_params))

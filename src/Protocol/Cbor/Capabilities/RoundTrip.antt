-- ===== src/Protocol/Cbor/Capabilities/RoundTrip.antt =====
-- A declaration is read back from its encoding.
use howm.Base.{
  ℕ, ◌≡◌, refl, ap, ◌∙◌, Bool, true, false, Option, none, some, List, [], ◌∷◌, ◌++◌, map,
  filter_map, ok, ◌>>=◌, unwrap_or,
}
use howm.Protocol.Role.{from_u64-to_u64}
use howm.Protocol.Manifest.{CapabilityDeclaration}
use howm.Protocol.Scope.{ScopeParams}
use howm.Protocol.Cbor.Values.{
  Value, list_of, values_of, pairs_of-entries_of, key_u64, int_value, map_get, map_get_bool,
  map_get_array, map_get_map,
}
use howm.Protocol.Cbor.Scopes.{scope_to_cbor_value}
use howm.Protocol.Cbor.Scopes.RoundTrip.{IsEncodable, scope_round_trip}
use howm.Protocol.Cbor.Capabilities.{
  mutual_pair, scope_pair, keys_pair, cap_pairs, cap_to_cbor_value, scope_of_pairs, keys_of,
  cap_from_pairs, cap_from_cbor_value, mutual_key, scope_key, applicable_scope_keys_key,
}

-- The scope of a declaration, if it has one, is encodable.
abbrev pub IsEncodableCap : CapabilityDeclaration → Type 0
IsEncodableCap c = (s : ScopeParams) → c.scope ≡ some s → IsEncodable s

-- The entries behind the name and the role.
abbrev tail_pairs : Bool → Option ScopeParams → Option (List ℕ) → List (Value × Value)
tail_pairs m sc ks = mutual_pair m ++ (scope_pair sc ++ keys_pair ks)

get_mutual :
    (m : Bool) (sc : Option ScopeParams) (ks : Option (List ℕ))
    → unwrap_or (map_get_bool (tail_pairs m sc ks) mutual_key) false ≡ m
unfolding map_get
get_mutual true sc ks = refl
get_mutual false none none = refl
get_mutual false none (some ks) = refl
get_mutual false (some s) none = refl
get_mutual false (some s) (some ks) = refl

scope_of_encoded :
    (s : ScopeParams)
    → IsEncodable s
    → scope_of_pairs (map_get_map (scope_pair (some s) ++ []) scope_key) ≡ ok (some s)
unfolding map_get scope_to_cbor_value
scope_of_encoded s e =
    rw (pairs_of-entries_of _) (ap (λ r. r >>= λ t. ok (some t)) (scope_round_trip s e))

get_scope :
    (m : Bool) (sc : Option ScopeParams) (ks : Option (List ℕ))
    → ((s : ScopeParams) → sc ≡ some s → IsEncodable s)
    → scope_of_pairs (map_get_map (tail_pairs m sc ks) scope_key) ≡ ok sc
unfolding map_get
get_scope true none none e = refl
get_scope true none (some ks) e = refl
get_scope false none none e = refl
get_scope false none (some ks) e = refl
get_scope true (some s) ks e = unfold scope_to_cbor_value in scope_of_encoded s (e s refl)
get_scope false (some s) ks e = unfold scope_to_cbor_value in scope_of_encoded s (e s refl)

keys_of_encoded : (ks : List ℕ) → filter_map key_u64 (list_of (values_of (map int_value ks))) ≡ ks
keys_of_encoded [] = refl
keys_of_encoded (k ∷ ks) = ap (◌∷◌ k) (keys_of_encoded ks)

get_keys :
    (m : Bool) (sc : Option ScopeParams) (ks : Option (List ℕ))
    → keys_of (map_get_array (tail_pairs m sc ks) applicable_scope_keys_key) ≡ ks
unfolding map_get
get_keys true none none = refl
get_keys true (some s) none = refl
get_keys false none none = refl
get_keys false (some s) none = refl
get_keys true none (some ks) = ap some (keys_of_encoded ks)
get_keys true (some s) (some ks) = ap some (keys_of_encoded ks)
get_keys false none (some ks) = ap some (keys_of_encoded ks)
get_keys false (some s) (some ks) = ap some (keys_of_encoded ks)

pairs_round_trip :
    (c : CapabilityDeclaration) → IsEncodableCap c → cap_from_pairs (cap_pairs c) ≡ ok c
unfolding cap_from_pairs cap_pairs
pairs_round_trip c e = rw (
  from_u64-to_u64 c.role,
  get_scope c.is_mutual c.scope c.applicable_scope_keys e,
  get_mutual c.is_mutual c.scope c.applicable_scope_keys,
  get_keys c.is_mutual c.scope c.applicable_scope_keys,
)

-- A declaration whose scope is encodable is read back from its encoding.
pub cap_round_trip :
    (c : CapabilityDeclaration)
    → IsEncodableCap c
    → cap_from_cbor_value (cap_to_cbor_value c) ≡ ok c
unfolding cap_from_cbor_value cap_to_cbor_value
cap_round_trip c e = ap cap_from_pairs (pairs_of-entries_of (cap_pairs c)) ∙ pairs_round_trip c e

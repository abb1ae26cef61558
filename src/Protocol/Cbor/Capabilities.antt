-- ===== src/Protocol/Cbor/Capabilities.antt =====
-- node/p2pcd-types/src/cbor.rs: capability declarations as CBOR, there and back.
pub mod RoundTrip
use howm.Base.{
  ℕ, Bool, true, false, Option, none, some, List, [], ◌∷◌, ◌++◌, map, filter_map, Result, ok, err,
  ok_or, ◌>>=◌, unwrap_or,
}
use howm.Protocol.Role
use howm.Protocol.Manifest.{CapabilityDeclaration}
use howm.Protocol.Scope.{ScopeParams}
use howm.Protocol.Cbor.Values.{
  Value, text, bool, array, map_value, values_of, entries_of, pairs_of, int_key, int_value, key_u64,
  map_get, map_get_int, map_get_bool, map_get_text, map_get_array, map_get_map,
}
use howm.Protocol.Cbor.Scopes.{
  CborError, expected_map, missing, unknown_role, scope_to_cbor_value, scope_from_cbor_value,
}

abbrev pub name_key : ℕ
name_key = 1

abbrev pub role_key : ℕ
role_key = 2

abbrev pub mutual_key : ℕ
mutual_key = 3

abbrev pub scope_key : ℕ
scope_key = 5

abbrev pub applicable_scope_keys_key : ℕ
applicable_scope_keys_key = 6

abbrev pub mutual_pair : Bool → List (Value × Value)
mutual_pair true = (int_key mutual_key, bool true) ∷ []
mutual_pair false = []

abbrev pub scope_pair : Option ScopeParams → List (Value × Value)
scope_pair none = []
scope_pair (some s) = (int_key scope_key, scope_to_cbor_value s) ∷ []

abbrev pub keys_pair : Option (List ℕ) → List (Value × Value)
keys_pair none = []
keys_pair (some ks) = (int_key applicable_scope_keys_key, array (values_of (map int_value ks))) ∷ []

-- The optional entries follow the name and the role.
unfoldable pub cap_pairs : CapabilityDeclaration → List (Value × Value)
cap_pairs c =
    (int_key name_key, text c.name)
    ∷ (int_key role_key, int_value (Role.to_u64 c.role))
    ∷ (mutual_pair c.is_mutual ++ (scope_pair c.scope ++ keys_pair c.applicable_scope_keys))

unfoldable pub cap_to_cbor_value : CapabilityDeclaration → Value
unfolding cap_pairs
cap_to_cbor_value c = map_value (entries_of (cap_pairs c))

-- `.map(|m| scope_from_cbor_value(&Value::Map(m))).transpose()`
abbrev pub scope_of_pairs : Option (List (Value × Value)) → Result CborError (Option ScopeParams)
scope_of_pairs none = ok none
scope_of_pairs (some es) = do s ← scope_from_cbor_value (map_value (entries_of es)); ok (some s)

abbrev pub keys_of : Option (List Value) → Option (List ℕ)
keys_of none = none
keys_of (some vs) = some (filter_map key_u64 vs)

unfoldable pub cap_from_pairs : List (Value × Value) → Result CborError CapabilityDeclaration
unfolding map_get
cap_from_pairs es = do
  name ← ok_or (map_get_text es name_key) (missing name_key)
  role_u64 ← ok_or (map_get_int es role_key) (missing role_key)
  role ← ok_or (Role.from_u64 role_u64) (unknown_role role_u64)
  scope ← scope_of_pairs (map_get_map es scope_key)
  ok (record {
    name = name;
    role = role;
    is_mutual = unwrap_or (map_get_bool es mutual_key) false;
    scope = scope;
    applicable_scope_keys = keys_of (map_get_array es applicable_scope_keys_key);
  })

unfoldable pub cap_from_cbor_value : Value → Result CborError CapabilityDeclaration
unfolding cap_from_pairs
cap_from_cbor_value (map_value es) = cap_from_pairs (pairs_of es)
cap_from_cbor_value _ = err expected_map

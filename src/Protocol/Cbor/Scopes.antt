-- ===== src/Protocol/Cbor/Scopes.antt =====
-- node/p2pcd-types/src/cbor.rs: scope parameters as CBOR, there and back.
pub mod RoundTrip
use howm.Base.{
  ℕ, zero, suc, ◌≡◌, ◌<◌, refl, ap, ◌∙◌, sym, Bool, true, false, ◌&&◌, Option, none, some, List, [],
  ◌∷◌, ◌++◌, map, Map, IsMap, insert, insert_all, insert_all-append, nat_ord, ltb, nat_eq,
  if◌then◌else◌, Result, ok, err, unwrap_or, arith, All,
}
use howm.Protocol.Scope.{ScopeValue, ScopeValues, ScopeParams}
use howm.Protocol.Scope
use howm.Protocol.Scope.Laws.{params_eq}
use howm.Protocol.Cbor.Values.{
  ℤ, pos, negsuc, Value, Values, Entries, integer, bytes, text, bool, array, map_value, other, nil,
  cons, entries_of, pairs_of, pairs_of-entries_of, int_key, int_value, key_u64, try_u64, map_get,
  map_get_int, pick_int, is_key, first_of,
}

pub data CborError : Type 0 where
  expected_map bad_peer_id too_large truncated not_text undecodable : CborError
  missing : ℕ → CborError
  unknown_role unknown_reason : ℕ → CborError

abbrev pub rate_limit_key : ℕ
rate_limit_key = 1

abbrev pub ttl_key : ℕ
ttl_key = 2

unfoldable mutual
  pub scope_value_to_cbor : ScopeValue → Value
  scope_value_to_cbor (ScopeValue.uint v) = integer (pos v)
  scope_value_to_cbor (ScopeValue.text s) = text s
  scope_value_to_cbor (ScopeValue.bool b) = bool b
  scope_value_to_cbor (ScopeValue.bytes b) = bytes b
  scope_value_to_cbor (ScopeValue.array vs) = array (scope_values_to_cbor vs)

  pub scope_values_to_cbor : ScopeValues → Values
  scope_values_to_cbor ScopeValues.nil = nil
  scope_values_to_cbor (ScopeValues.cons v vs) =
      cons (scope_value_to_cbor v) (scope_values_to_cbor vs)

abbrev pub uint_of : Option ℕ → Option ScopeValue
uint_of none = none
uint_of (some n) = some (ScopeValue.uint n)

abbrev pub cons_some : Option ScopeValue → ScopeValues → ScopeValues
cons_some none vs = vs
cons_some (some v) vs = ScopeValues.cons v vs

-- The elements of an array that are no scope values are left out.
unfoldable mutual
  pub cbor_to_scope_value : Value → Option ScopeValue
  cbor_to_scope_value (integer i) = uint_of (try_u64 i)
  cbor_to_scope_value (text s) = some (ScopeValue.text s)
  cbor_to_scope_value (bool b) = some (ScopeValue.bool b)
  cbor_to_scope_value (bytes b) = some (ScopeValue.bytes b)
  cbor_to_scope_value (array vs) = some (ScopeValue.array (cbor_to_scope_values vs))
  cbor_to_scope_value (map_value es) = none
  cbor_to_scope_value other = none

  pub cbor_to_scope_values : Values → ScopeValues
  cbor_to_scope_values nil = ScopeValues.nil
  cbor_to_scope_values (cons v vs) = cons_some (cbor_to_scope_value v) (cbor_to_scope_values vs)

abbrev pub ext_pair : ℕ × ScopeValue → Value × Value
ext_pair (k, v) = (int_key k, scope_value_to_cbor v)

-- A limit of 0 is not written.
abbrev pub limit_pair : ℕ → ℕ → List (Value × Value)
limit_pair key n = if ltb 0 n then (int_key key, int_value n) ∷ [] else []

unfoldable pub scope_to_cbor_value : ScopeParams → Value
unfolding scope_value_to_cbor
scope_to_cbor_value s = map_value (
    entries_of (
      limit_pair rate_limit_key s.rate_limit
      ++ (limit_pair ttl_key s.ttl ++ map ext_pair s.extensions)))

abbrev pub put_some : ℕ → Option ScopeValue → Map ℕ ScopeValue → Map ℕ ScopeValue
put_some key none out = out
put_some key (some v) out = insert key v out

abbrev pub put_extension : Option ℕ → Value → Map ℕ ScopeValue → Map ℕ ScopeValue
put_extension none v out = out
put_extension (some key) v out =
    if ltb ttl_key key then put_some key (cbor_to_scope_value v) out else out

unfoldable pub collect_extensions : List (Value × Value) → Map ℕ ScopeValue → Map ℕ ScopeValue
unfolding cbor_to_scope_value
collect_extensions [] out = out
collect_extensions ((k, v) ∷ es) out = collect_extensions es (put_extension (key_u64 k) v out)

unfoldable pub scope_from_pairs : List (Value × Value) → ScopeParams
unfolding collect_extensions map_get
scope_from_pairs es = record {
  rate_limit = unwrap_or (map_get_int es rate_limit_key) 0;
  ttl = unwrap_or (map_get_int es ttl_key) 0;
  extensions = collect_extensions es [];
}

unfoldable pub scope_from_cbor_value : Value → Result CborError ScopeParams
unfolding scope_from_pairs
scope_from_cbor_value (map_value es) = ok (scope_from_pairs (pairs_of es))
scope_from_cbor_value _ = err expected_map

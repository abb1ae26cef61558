-- ===== src/Protocol/Cbor/Scopes/RoundTrip.antt =====
-- Scope parameters are read back from their encoding.
use howm.Base.{
  ℕ, zero, suc, ◌≡◌, ◌<◌, refl, ap, ◌∙◌, false, none, some, List, [], ◌∷◌, ◌++◌, map, Map, IsMap,
  insert, insert_all, insert_all-append, nat_ord, nat_eq, ok, unwrap_or, arith, All,
}
use howm.Protocol.Scope.{ScopeValue, ScopeValues, ScopeParams}
use howm.Protocol.Scope.Laws.{params_eq}
use howm.Protocol.Cbor.Values.{Value, pairs_of-entries_of, map_get, map_get_int}
use howm.Protocol.Cbor.Scopes.{
  rate_limit_key, ttl_key, scope_value_to_cbor, scope_values_to_cbor, cbor_to_scope_value,
  cbor_to_scope_values, ext_pair, limit_pair, scope_to_cbor_value, collect_extensions,
  scope_from_cbor_value,
}

mutual
  unfolding scope_value_to_cbor cbor_to_scope_value

  value_round_trip : (v : ScopeValue) → cbor_to_scope_value (scope_value_to_cbor v) ≡ some v
  value_round_trip (ScopeValue.uint n) = refl
  value_round_trip (ScopeValue.text s) = refl
  value_round_trip (ScopeValue.bool b) = refl
  value_round_trip (ScopeValue.bytes b) = refl
  value_round_trip (ScopeValue.array vs) =
      ap (λ ws. some (ScopeValue.array ws)) (values_round_trip vs)

  values_round_trip : (vs : ScopeValues) → cbor_to_scope_values (scope_values_to_cbor vs) ≡ vs
  values_round_trip ScopeValues.nil = refl
  values_round_trip (ScopeValues.cons v vs) =
      rw (value_round_trip v) (ap (ScopeValues.cons v) (values_round_trip vs))

-- Extension keys are those above the two limits'.
abbrev pub HasExtensionKeys : Map ℕ ScopeValue → Type 0
HasExtensionKeys = All (λ e. ttl_key < e.0)

pub record IsEncodable (s : ScopeParams) : Type 0 where
  pub keys_above : HasExtensionKeys s.extensions
  pub in_order : IsMap s.extensions

no_limit :
    (key : ℕ) (exts : Map ℕ ScopeValue)
    → key < 3
    → HasExtensionKeys exts
    → map_get_int (map ext_pair exts) key ≡ none
unfolding map_get
no_limit key [] h a = refl
no_limit key ((k, v) ∷ exts) h a = ground (arith, no_limit key exts h a.1)

collect_extensions-map :
    (exts out : Map ℕ ScopeValue)
    → HasExtensionKeys exts
    → collect_extensions (map ext_pair exts) out ≡ insert_all out exts
unfolding collect_extensions insert_all
collect_extensions-map [] out a = refl
collect_extensions-map ((k, v) ∷ exts) out a =
    ground (arith, value_round_trip v, collect_extensions-map exts (insert k v out) a.1)

collect_extensions-limit :
    (key n : ℕ) (es : List (Value × Value)) (out : Map ℕ ScopeValue)
    → key < 3
    → collect_extensions (limit_pair key n ++ es) out ≡ collect_extensions es out
unfolding collect_extensions
collect_extensions-limit key zero es out h = refl
collect_extensions-limit key (suc n) es out h = ground arith

get_limit :
    (key n : ℕ) (es : List (Value × Value))
    → map_get_int es key ≡ none
    → unwrap_or (map_get_int (limit_pair key n ++ es) key) 0 ≡ n
unfolding map_get
get_limit key zero es h = ground arith
get_limit key (suc n) es h = ground arith

skip_limit :
    (key other_key n : ℕ) (es : List (Value × Value))
    → nat_eq other_key key ≡ false
    → map_get_int (limit_pair other_key n ++ es) key ≡ map_get_int es key
unfolding map_get
skip_limit key other_key zero es h = refl
skip_limit key other_key (suc n) es h = ground arith

-- Scope parameters whose extensions are in order of their keys, all above the keys of the two
-- limits, are read back from their encoding.
pub scope_round_trip :
    (s : ScopeParams) → IsEncodable s → scope_from_cbor_value (scope_to_cbor_value s) ≡ ok s
unfolding scope_from_cbor_value scope_to_cbor_value
scope_round_trip s e = rw (pairs_of-entries_of _) (ap ok (params_eq _ s rate life exts))
  where
    ext_pairs : List (Value × Value)
    ext_pairs = map ext_pair s.extensions

    with_ttl : List (Value × Value)
    with_ttl = limit_pair ttl_key s.ttl ++ ext_pairs

    no_rate : map_get_int with_ttl rate_limit_key ≡ none
    no_rate =
        skip_limit rate_limit_key ttl_key s.ttl ext_pairs refl
        ∙ no_limit rate_limit_key s.extensions (omega arith) e.keys_above

    rate :
        unwrap_or
          (map_get_int (limit_pair rate_limit_key s.rate_limit ++ with_ttl) rate_limit_key)
          0
        ≡ s.rate_limit
    rate = get_limit rate_limit_key s.rate_limit with_ttl no_rate

    life :
        unwrap_or (map_get_int (limit_pair rate_limit_key s.rate_limit ++ with_ttl) ttl_key) 0
        ≡ s.ttl
    life = rw (skip_limit ttl_key rate_limit_key s.rate_limit with_ttl refl) (
        get_limit ttl_key s.ttl ext_pairs
          (no_limit ttl_key s.extensions (omega arith) e.keys_above))

    exts : collect_extensions (limit_pair rate_limit_key s.rate_limit ++ with_ttl) [] ≡ s.extensions
    exts =
        collect_extensions-limit rate_limit_key s.rate_limit with_ttl [] (omega arith)
        ∙ collect_extensions-limit ttl_key s.ttl ext_pairs [] (omega arith)
        ∙ collect_extensions-map s.extensions [] e.keys_above
        ∙ insert_all-append [] s.extensions e.in_order

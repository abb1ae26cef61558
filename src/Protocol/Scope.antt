-- ===== src/Protocol/Scope.antt =====
-- node/p2pcd-types/src/scope.rs: scope parameters and their reconciliation.
pub mod Laws
use mathlib.Core.Option
use howm.Base.{
  ℕ, ◌≡◌, refl, Bool, true, false, ◌&&◌, Option, none, some, List, [], ◌∷◌, nat_eq, Bytes, Text,
  bytes_eq, if◌then◌else◌, Map, lookup, insert, min, nat_ord,
}

-- `Array(Vec<ScopeValue>)` is a copy of the list type in the block.
mutual
  pub data ScopeValue : Type 0 where
    uint : ℕ → ScopeValue
    text : Text → ScopeValue
    bool : Bool → ScopeValue
    bytes : Bytes → ScopeValue
    array : ScopeValues → ScopeValue

  pub data ScopeValues : Type 0 where
    nil : ScopeValues
    cons : ScopeValue → ScopeValues → ScopeValues

abbrev bool_eq : Bool → Bool → Bool
bool_eq true b = b
bool_eq false true = false
bool_eq false false = true

-- The derived `PartialEq`.
unfoldable mutual
  pub value_eq : ScopeValue → ScopeValue → Bool
  value_eq (uint a) (uint b) = nat_eq a b
  value_eq (text a) (text b) = bytes_eq a b
  value_eq (bool a) (bool b) = bool_eq a b
  value_eq (bytes a) (bytes b) = bytes_eq a b
  value_eq (array a) (array b) = values_eq a b
  value_eq _ _ = false

  pub values_eq : ScopeValues → ScopeValues → Bool
  values_eq nil nil = true
  values_eq (cons a as') (cons b bs) = value_eq a b && values_eq as' bs
  values_eq _ _ = false

unfoldable pub as_uint : ScopeValue → Option ℕ
as_uint (uint v) = some v
as_uint _ = none

unfoldable pub as_bool : ScopeValue → Option Bool
as_bool (bool v) = some v
as_bool _ = none

unfoldable pub as_text : ScopeValue → Option Text
as_text (text s) = some s
as_text _ = none

unfoldable pub texts_of : ScopeValues → Option (List Text)
unfolding as_text
texts_of nil = some []
texts_of (cons v vs) = Option.bind (as_text v) (λ s. Option.map (λ out. s ∷ out) (texts_of vs))

unfoldable pub as_text_array : ScopeValue → Option (List Text)
unfolding texts_of
as_text_array (array arr) = texts_of arr
as_text_array _ = none

unfoldable pub contains_value : ScopeValues → ScopeValue → Bool
unfolding value_eq
contains_value nil v = false
contains_value (cons w ws) v = if value_eq w v then true else contains_value ws v

pub record ScopeParams : Type 0 where
  pub rate_limit : ℕ
  pub ttl : ℕ
  pub extensions : Map ℕ ScopeValue

-- The derived `Default`.
abbrev pub default_params : ScopeParams
default_params = record { rate_limit = 0; ttl = 0; extensions = [] }

unfoldable pub reconcile_uint_zero_unlimited : ℕ → ℕ → ℕ
reconcile_uint_zero_unlimited a b = if nat_eq a 0 then b else if nat_eq b 0 then a else min a b

-- `va.iter().filter(|item| vb.contains(item))`
unfoldable pub intersect_values : ScopeValues → ScopeValues → ScopeValues
unfolding contains_value
intersect_values nil vb = nil
intersect_values (cons v vs) vb =
    if contains_value vb v then cons v (intersect_values vs vb) else intersect_values vs vb

unfoldable pub reconcile_scope_value : ScopeValue → ScopeValue → ScopeValue
unfolding reconcile_uint_zero_unlimited intersect_values
reconcile_scope_value (uint va) (uint vb) = uint (reconcile_uint_zero_unlimited va vb)
reconcile_scope_value (array va) (array vb) = array (intersect_values va vb)
reconcile_scope_value a _ = a

-- The arms of the match on the two sides' values of a key.
unfoldable pub merge_key : Option ScopeValue → Option ScopeValue → Option ScopeValue
unfolding reconcile_scope_value
merge_key (some a) (some b) = some (reconcile_scope_value a b)
merge_key (some v) none = some v
merge_key none (some v) = some v
merge_key none none = none

-- The `BTreeSet` of the keys: a map to nothing.
unfoldable pub collect_keys : Map ℕ (Unit {0}) → Map ℕ ScopeValue → Map ℕ (Unit {0})
collect_keys ks [] = ks
collect_keys ks ((k, v) ∷ m) = collect_keys (insert k tt ks) m

abbrev pub insert_some : ℕ → Option ScopeValue → Map ℕ ScopeValue → Map ℕ ScopeValue
insert_some k none out = out
insert_some k (some v) out = insert k v out

-- One round for each key; the `unreachable!` arm adds nothing.
unfoldable pub merge_keys :
    Map ℕ (Unit {0}) → Map ℕ ScopeValue → Map ℕ ScopeValue → Map ℕ ScopeValue → Map ℕ ScopeValue
unfolding merge_key
merge_keys [] a b out = out
merge_keys ((k, _) ∷ ks) a b out =
    merge_keys ks a b (insert_some k (merge_key (lookup k a) (lookup k b)) out)

unfoldable pub reconcile : ScopeParams → ScopeParams → ScopeParams
unfolding collect_keys merge_keys reconcile_uint_zero_unlimited
reconcile s other = record {
  rate_limit = reconcile_uint_zero_unlimited s.rate_limit other.rate_limit;
  ttl = reconcile_uint_zero_unlimited s.ttl other.ttl;
  extensions =
      merge_keys (collect_keys (collect_keys [] s.extensions) other.extensions) s.extensions
        other.extensions [];
}

unfoldable pub get_ext : ScopeParams → ℕ → Option ScopeValue
get_ext s key = lookup key s.extensions

unfoldable pub get_ext_uint : ScopeParams → ℕ → Option ℕ
get_ext_uint s key = Option.bind (lookup key s.extensions) as_uint

unfoldable pub set_ext : ScopeParams → ℕ → ScopeValue → ScopeParams
set_ext s key val = record s { extensions = insert key val s.extensions }

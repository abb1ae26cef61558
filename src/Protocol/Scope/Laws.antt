-- ===== src/Protocol/Scope/Laws.antt =====
-- What `reconcile` gives, key by key, and how it treats the two sides.
use howm.Base.{
  ℕ, ◌≤◌, ◌≡◌, refl, sym, ap, ◌∙◌, ◌≢◌, true, ◌||◌, ◌&&◌, Option, none, some, [], ◌∷◌, nat_eq,
  if◌then◌else◌, Map, IsMap, lookup, insert, lookup-insert, insert-IsMap, Map-eq, arith, ◌↔◌, Text,
  bytes_eq_iff, ◌⊎◌, nat_ord, nat_eq_iff, is_some,
}
use howm.Protocol.Scope.{
  ScopeValue, ScopeValues, uint, text, bool, bytes, array, nil, cons, value_eq, values_eq,
  ScopeParams, reconcile_uint_zero_unlimited, intersect_values, contains_value,
  reconcile_scope_value, merge_key, insert_some, collect_keys, merge_keys, reconcile, get_ext,
  as_uint,
}

mutual
  unfolding value_eq

  value_eq→eq : (a b : ScopeValue) → value_eq a b ≡ true → a ≡ b
  value_eq→eq (uint a) (uint b) h = ground arith
  value_eq→eq (text a) (text b) h = ap text ((bytes_eq_iff a b).0 h)
  value_eq→eq (bool a) (bool b) h = ground arith
  value_eq→eq (bytes a) (bytes b) h = ap bytes ((bytes_eq_iff a b).0 h)
  value_eq→eq (array a) (array b) h = ap array (values_eq→eq a b h)
  value_eq→eq _ _ h = cc

  values_eq→eq : (a b : ScopeValues) → values_eq a b ≡ true → a ≡ b
  values_eq→eq nil nil h = refl
  values_eq→eq (cons a as') (cons b bs) h = ground (arith, value_eq→eq a b, values_eq→eq as' bs)
  values_eq→eq _ _ h = cc

mutual
  unfolding value_eq

  value_eq_refl : (a : ScopeValue) → value_eq a a ≡ true
  value_eq_refl (uint a) = ground arith
  value_eq_refl (text a) = (bytes_eq_iff a a).1 refl
  value_eq_refl (bool a) = ground arith
  value_eq_refl (bytes a) = (bytes_eq_iff a a).1 refl
  value_eq_refl (array a) = values_eq_refl a

  values_eq_refl : (a : ScopeValues) → values_eq a a ≡ true
  values_eq_refl nil = refl
  values_eq_refl (cons a as') = ground (arith, value_eq_refl a, values_eq_refl as')

-- The derived equality of scope values holds of equal values only.
pub value_eq_iff : (a b : ScopeValue) → (value_eq a b ≡ true) ↔ (a ≡ b)
value_eq_iff a b = (value_eq→eq a b, λ e. rw e (value_eq_refl b))

-- Of two limits, where 0 is none: the result is 0 only if both are 0, is no more than either that is
-- not 0, and is one of the two.
pub reconcile_uint_tightest :
    (a b : ℕ)
    → ((reconcile_uint_zero_unlimited a b ≡ 0) ↔ ((a ≡ 0) × (b ≡ 0)))
      × ((a ≡ 0) ⊎ (reconcile_uint_zero_unlimited a b ≤ a))
      × ((b ≡ 0) ⊎ (reconcile_uint_zero_unlimited a b ≤ b))
      × ((reconcile_uint_zero_unlimited a b ≡ a) ⊎ (reconcile_uint_zero_unlimited a b ≡ b))
unfolding reconcile_uint_zero_unlimited
reconcile_uint_tightest a b = ground arith

pub reconcile_uint_comm :
    (a b : ℕ) → reconcile_uint_zero_unlimited a b ≡ reconcile_uint_zero_unlimited b a
unfolding reconcile_uint_zero_unlimited
reconcile_uint_comm a b = ground arith

lookup-collect_keys :
    (k : ℕ) (ks : Map ℕ (Unit {0})) (m : Map ℕ ScopeValue)
    → is_some (lookup k (collect_keys ks m)) ≡ (is_some (lookup k ks) || is_some (lookup k m))
unfolding collect_keys lookup
lookup-collect_keys k ks [] = ground arith
lookup-collect_keys k ks ((j, v) ∷ m) =
    ground (arith, lookup-insert k j tt ks, lookup-collect_keys k (insert j tt ks) m)

lookup-insert_some :
    (k j : ℕ) (v : Option ScopeValue) (out : Map ℕ ScopeValue)
    → lookup k (insert_some j v out)
      ≡ (if nat_eq j k then (if is_some v then v else lookup k out) else lookup k out)
lookup-insert_some k j none out = ground arith
lookup-insert_some k j (some v) out = ground (arith, lookup-insert k j v out)

lookup-merge_keys :
    (k : ℕ) (ks : Map ℕ (Unit {0})) (a b out : Map ℕ ScopeValue)
    → (lookup k out ≡ none) ⊎ (lookup k out ≡ merge_key (lookup k a) (lookup k b))
    → lookup k (merge_keys ks a b out)
      ≡ (if is_some (lookup k ks) then merge_key (lookup k a) (lookup k b) else lookup k out)
unfolding merge_keys lookup
lookup-merge_keys k [] a b out h = refl
lookup-merge_keys k ((j, _) ∷ ks) a b out h =
    let merged = merge_key (lookup j a) (lookup j b) in
    ground (
      arith,
      lookup-insert_some k j merged out,
      lookup-merge_keys k ks a b (insert_some j merged out),
      nat_eq_iff j k,
    )

-- Each extension key of the result holds what the two sides' values for it reconcile to, and a key
-- that neither side has is absent.
pub get_ext-reconcile :
    (s t : ScopeParams) (k : ℕ) → get_ext (reconcile s t) k ≡ merge_key (get_ext s k) (get_ext t k)
unfolding get_ext reconcile merge_key lookup
get_ext-reconcile s t k = ground (
  arith,
  lookup-collect_keys k [] s.extensions,
  lookup-collect_keys k (collect_keys [] s.extensions) t.extensions,
  lookup-merge_keys k (collect_keys (collect_keys [] s.extensions) t.extensions) s.extensions
      t.extensions [],
)

merge_keys-IsMap :
    (ks : Map ℕ (Unit {0})) (a b out : Map ℕ ScopeValue) → IsMap out → IsMap (merge_keys ks a b out)
unfolding merge_keys
merge_keys-IsMap [] a b out h = h
merge_keys-IsMap ((k, _) ∷ ks) a b out h =
    merge_keys-IsMap ks a b _ (insert_some-IsMap (merge_key (lookup k a) (lookup k b)))
  where
    insert_some-IsMap : (v : Option ScopeValue) → IsMap (insert_some k v out)
    insert_some-IsMap none = h
    insert_some-IsMap (some v) = insert-IsMap k v out h

-- The result lists its keys in order, each once.
pub reconcile-IsMap : (s t : ScopeParams) → IsMap (reconcile s t).extensions
unfolding reconcile
reconcile-IsMap s t =
    merge_keys-IsMap (collect_keys (collect_keys [] s.extensions) t.extensions) s.extensions
      t.extensions [] tt

pub params_eq :
    (s t : ScopeParams)
    → s.rate_limit ≡ t.rate_limit
    → s.ttl ≡ t.ttl
    → s.extensions ≡ t.extensions
    → s ≡ t
params_eq s t p q r = λ i. record { rate_limit = p i; ttl = q i; extensions = r i }

-- Parameters all of whose extensions are numbers.
abbrev pub IsNumeric : ScopeParams → Type 0
IsNumeric s = (k : ℕ) (v : ScopeValue) → get_ext s k ≡ some v → is_some (as_uint v) ≡ true

merge_key_comm :
    (a b : Option ScopeValue)
    → ((v : ScopeValue) → a ≡ some v → is_some (as_uint v) ≡ true)
    → ((v : ScopeValue) → b ≡ some v → is_some (as_uint v) ≡ true)
    → merge_key a b ≡ merge_key b a
unfolding merge_key reconcile_scope_value as_uint
merge_key_comm none none h g = refl
merge_key_comm none (some b) h g = refl
merge_key_comm (some a) none h g = refl
merge_key_comm (some (uint a)) (some (uint b)) h g =
    ap (λ v. some (uint v)) (reconcile_uint_comm a b)
merge_key_comm (some (uint a)) (some (text b)) h g = cc (g _ refl)
merge_key_comm (some (uint a)) (some (bool b)) h g = cc (g _ refl)
merge_key_comm (some (uint a)) (some (bytes b)) h g = cc (g _ refl)
merge_key_comm (some (uint a)) (some (array b)) h g = cc (g _ refl)
merge_key_comm (some (text a)) (some b) h g = cc (h _ refl)
merge_key_comm (some (bool a)) (some b) h g = cc (h _ refl)
merge_key_comm (some (bytes a)) (some b) h g = cc (h _ refl)
merge_key_comm (some (array a)) (some b) h g = cc (h _ refl)

-- Two sides with only numeric parameters reconcile to the same parameters, whichever reconciles.
pub reconcile_comm : (s t : ScopeParams) → IsNumeric s → IsNumeric t → reconcile s t ≡ reconcile t s
unfolding get_ext
reconcile_comm s t h g =
    params_eq (reconcile s t) (reconcile t s) same_rate same_ttl same_extensions
  where
    same_rate : (reconcile s t).rate_limit ≡ (reconcile t s).rate_limit
    same_rate = unfold reconcile in reconcile_uint_comm s.rate_limit t.rate_limit

    same_ttl : (reconcile s t).ttl ≡ (reconcile t s).ttl
    same_ttl = unfold reconcile in reconcile_uint_comm s.ttl t.ttl

    same_extensions : (reconcile s t).extensions ≡ (reconcile t s).extensions
    same_extensions =
        Map-eq (reconcile s t).extensions (reconcile t s).extensions (reconcile-IsMap s t)
          (reconcile-IsMap t s)
          λ k.
            get_ext-reconcile s t k
            ∙ merge_key_comm (lookup k s.extensions) (lookup k t.extensions) (h k) (g k)
            ∙ sym (get_ext-reconcile t s k)

-- Where the two sides name different texts for one key, each keeps its own.
pub reconcile_texts_differ :
    (s t : ScopeParams) (k : ℕ) (a b : Text)
    → get_ext s k ≡ some (text a)
    → get_ext t k ≡ some (text b)
    → a ≢ b
    → get_ext (reconcile s t) k ≢ get_ext (reconcile t s) k
unfolding merge_key reconcile_scope_value
reconcile_texts_differ s t k a b hs ht n =
    ground (arith, get_ext-reconcile s t k, get_ext-reconcile t s k)

contains_value-intersect_values :
    (va vb : ScopeValues) (v : ScopeValue)
    → contains_value (intersect_values va vb) v ≡ (contains_value va v && contains_value vb v)
unfolding intersect_values contains_value
contains_value-intersect_values nil vb v = refl
contains_value-intersect_values (cons a as') vb v =
    ground (arith, value_eq_iff a v, contains_value-intersect_values as' vb v)

-- ===== src/Protocol/Cbor/Values.antt =====
-- node/p2pcd-types/src/cbor.rs: CBOR values, as far as the code takes them apart, and the getters for
-- maps with integer keys.

use howm.Base.{
  ℕ, ◌≡◌, refl, ap, Bool, true, false, Option, none, some, List, [], ◌∷◌, Bytes, Text, nat_eq,
}

-- `negsuc n` is -(n + 1).
pub data ℤ : Type 0 where
  pos : ℕ → ℤ
  negsuc : ℕ → ℤ

-- `other` stands for null, floats and tagged values, which the code only tells from the rest. A list
-- of values and a list of entries are copies of the list type in the block.
mutual
  pub data Value : Type 0 where
    integer : ℤ → Value
    bytes : Bytes → Value
    text : Text → Value
    bool : Bool → Value
    array : Values → Value
    map_value : Entries → Value
    other : Value

  pub data Values : Type 0 where
    nil : Values
    cons : Value → Values → Values

  pub data Entries : Type 0 where
    end : Entries
    entry : Value → Value → Entries → Entries

abbrev pub values_of : List Value → Values
values_of [] = nil
values_of (v ∷ vs) = cons v (values_of vs)

abbrev pub list_of : Values → List Value
list_of nil = []
list_of (cons v vs) = v ∷ list_of vs

abbrev pub entries_of : List (Value × Value) → Entries
entries_of [] = end
entries_of ((k, v) ∷ es) = entry k v (entries_of es)

abbrev pub pairs_of : Entries → List (Value × Value)
pairs_of end = []
pairs_of (entry k v es) = (k, v) ∷ pairs_of es

pub list_of-values_of : (vs : List Value) → list_of (values_of vs) ≡ vs
list_of-values_of [] = refl
list_of-values_of (v ∷ vs) = ap (◌∷◌ v) (list_of-values_of vs)

pub pairs_of-entries_of : (es : List (Value × Value)) → pairs_of (entries_of es) ≡ es
pairs_of-entries_of [] = refl
pairs_of-entries_of ((k, v) ∷ es) = ap (◌∷◌ (k, v)) (pairs_of-entries_of es)

-- `u64::try_from`. A CBOR integer lies between -2^64 and 2^64 - 1, so one that is not negative fits.
abbrev pub try_u64 : ℤ → Option ℕ
try_u64 (pos n) = some n
try_u64 (negsuc n) = none

abbrev pub int_value : ℕ → Value
int_value n = integer (pos n)

abbrev pub int_key : ℕ → Value
int_key = int_value

abbrev pub key_u64 : Value → Option ℕ
key_u64 (integer i) = try_u64 i
key_u64 _ = none

abbrev pub is_key : ℕ → Option ℕ → Bool
is_key key none = false
is_key key (some k) = nat_eq k key

abbrev pub first_of {ℓ} : {A : Type ℓ} → Bool → Option (Option A) → Option A → Option A
first_of true (some r) rest = r
first_of true none rest = rest
first_of false r rest = rest

-- The getters scan for the first entry that has the key and a value of the type wanted.
unfoldable pub map_get {ℓ} :
    {A : Type ℓ} → (Value → Option (Option A)) → List (Value × Value) → ℕ → Option A
map_get pick [] key = none
map_get pick ((k, v) ∷ es) key = first_of (is_key key (key_u64 k)) (pick v) (map_get pick es key)

-- An integer ends the scan even if it does not fit.
abbrev pub pick_int : Value → Option (Option ℕ)
pick_int (integer i) = some (try_u64 i)
pick_int _ = none

abbrev pub pick_bool : Value → Option (Option Bool)
pick_bool (bool b) = some (some b)
pick_bool _ = none

abbrev pub pick_text : Value → Option (Option Text)
pick_text (text s) = some (some s)
pick_text _ = none

abbrev pub pick_bytes : Value → Option (Option Bytes)
pick_bytes (bytes b) = some (some b)
pick_bytes _ = none

abbrev pub pick_array : Value → Option (Option (List Value))
pick_array (array vs) = some (some (list_of vs))
pick_array _ = none

abbrev pub pick_map : Value → Option (Option (List (Value × Value)))
pick_map (map_value es) = some (some (pairs_of es))
pick_map _ = none

abbrev pub map_get_int : List (Value × Value) → ℕ → Option ℕ
map_get_int = map_get pick_int

abbrev pub map_get_bool : List (Value × Value) → ℕ → Option Bool
map_get_bool = map_get pick_bool

abbrev pub map_get_text : List (Value × Value) → ℕ → Option Text
map_get_text = map_get pick_text

abbrev pub map_get_bytes : List (Value × Value) → ℕ → Option Bytes
map_get_bytes = map_get pick_bytes

abbrev pub map_get_array : List (Value × Value) → ℕ → Option (List Value)
map_get_array = map_get pick_array

abbrev pub map_get_map : List (Value × Value) → ℕ → Option (List (Value × Value))
map_get_map = map_get pick_map

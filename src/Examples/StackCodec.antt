-- ===== src/Examples/StackCodec.antt =====
-- A codec that meets the assumptions on the CBOR library: a value is a list of instructions, an operation
-- and its operand each, for a machine that builds it on a stack.
use howm.Base.{
  ℕ, ◌≡◌, refl, ap, ◌∙◌, true, false, Option, none, some, List, [], ◌∷◌, Bytes, nat_eq,
  if◌then◌else◌,
}
use howm.Protocol.Cbor.Values.{
  pos, negsuc, Value, Values, Entries, integer, bytes, text, bool, array, map_value, other, nil,
  cons, end, entry,
}
use howm.Protocol.Cbor.Codec.{Codec}

unfoldable pub put_bytes : Bytes → Bytes → Bytes
put_bytes [] rest = 2 ∷ 0 ∷ rest
put_bytes (x ∷ xs) rest = put_bytes xs (3 ∷ x ∷ rest)

unfoldable pub put_text : Bytes → Bytes → Bytes
put_text [] rest = 4 ∷ 0 ∷ rest
put_text (x ∷ xs) rest = put_text xs (5 ∷ x ∷ rest)

unfoldable mutual
  unfolding put_bytes put_text

  pub put : Value → Bytes → Bytes
  put (integer (pos n)) rest = 0 ∷ n ∷ rest
  put (integer (negsuc n)) rest = 1 ∷ n ∷ rest
  put (bytes b) rest = put_bytes b rest
  put (text b) rest = put_text b rest
  put (bool true) rest = 6 ∷ 1 ∷ rest
  put (bool false) rest = 6 ∷ 0 ∷ rest
  put (array vs) rest = put_array vs rest
  put (map_value es) rest = put_map es rest
  put other rest = 11 ∷ 0 ∷ rest

  pub put_array : Values → Bytes → Bytes
  put_array nil rest = 7 ∷ 0 ∷ rest
  put_array (cons v vs) rest = put_array vs (put v (8 ∷ 0 ∷ rest))

  pub put_map : Entries → Bytes → Bytes
  put_map end rest = 9 ∷ 0 ∷ rest
  put_map (entry k v es) rest = put_map es (put k (put v (10 ∷ 0 ∷ rest)))

abbrev push_byte : ℕ → List Value → List Value
push_byte x (bytes b ∷ st) = bytes (x ∷ b) ∷ st
push_byte x st = st

abbrev push_char : ℕ → List Value → List Value
push_char x (text b ∷ st) = text (x ∷ b) ∷ st
push_char x st = st

abbrev push_item : List Value → List Value
push_item (v ∷ array vs ∷ st) = array (cons v vs) ∷ st
push_item st = st

abbrev push_entry : List Value → List Value
push_entry (v ∷ k ∷ map_value es ∷ st) = map_value (entry k v es) ∷ st
push_entry st = st

step : ℕ → ℕ → List Value → List Value
step op x st =
    if nat_eq op 0
    then integer (pos x) ∷ st
    else if nat_eq op 1
    then integer (negsuc x) ∷ st
    else if nat_eq op 2
    then bytes [] ∷ st
    else if nat_eq op 3
    then push_byte x st
    else if nat_eq op 4
    then text [] ∷ st
    else if nat_eq op 5
    then push_char x st
    else if nat_eq op 6
    then bool (nat_eq x 1) ∷ st
    else if nat_eq op 7
    then array nil ∷ st
    else if nat_eq op 8
    then push_item st
    else if nat_eq op 9
    then map_value end ∷ st
    else if nat_eq op 10
    then push_entry st
    else other ∷ st

run : Bytes → List Value → List Value
unfolding step
run [] st = st
run (op ∷ []) st = st
run (op ∷ x ∷ rest) st = run rest (step op x st)

run-put_bytes :
    (b rest : Bytes) (st : List Value) → run (put_bytes b rest) st ≡ run rest (bytes b ∷ st)
unfolding run put_bytes
run-put_bytes [] rest st = refl
run-put_bytes (x ∷ xs) rest st = run-put_bytes xs (3 ∷ x ∷ rest) st

run-put_text :
    (b rest : Bytes) (st : List Value) → run (put_text b rest) st ≡ run rest (text b ∷ st)
unfolding run put_text
run-put_text [] rest st = refl
run-put_text (x ∷ xs) rest st = run-put_text xs (5 ∷ x ∷ rest) st

mutual
  unfolding run put

  run-put : (v : Value) (rest : Bytes) (st : List Value) → run (put v rest) st ≡ run rest (v ∷ st)
  run-put (integer (pos n)) rest st = refl
  run-put (integer (negsuc n)) rest st = refl
  run-put (bytes b) rest st = run-put_bytes b rest st
  run-put (text b) rest st = run-put_text b rest st
  run-put (bool true) rest st = refl
  run-put (bool false) rest st = refl
  run-put (array vs) rest st = run-put_array vs rest st
  run-put (map_value es) rest st = run-put_map es rest st
  run-put other rest st = refl

  run-put_array :
      (vs : Values) (rest : Bytes) (st : List Value)
      → run (put_array vs rest) st ≡ run rest (array vs ∷ st)
  run-put_array nil rest st = refl
  run-put_array (cons v vs) rest st =
      run-put_array vs (put v (8 ∷ 0 ∷ rest)) st ∙ run-put v (8 ∷ 0 ∷ rest) (array vs ∷ st)

  run-put_map :
      (es : Entries) (rest : Bytes) (st : List Value)
      → run (put_map es rest) st ≡ run rest (map_value es ∷ st)
  run-put_map end rest st = refl
  run-put_map (entry k v es) rest st =
      run-put_map es (put k (put v (10 ∷ 0 ∷ rest))) st
      ∙ run-put k (put v (10 ∷ 0 ∷ rest)) (map_value es ∷ st)
      ∙ run-put v (10 ∷ 0 ∷ rest) (k ∷ map_value es ∷ st)

abbrev top : List Value → Option Value
top [] = none
top (v ∷ st) = some v

unfoldable pub write : Value → Bytes
unfolding put
write v = put v []

unfoldable pub read : Bytes → Option Value
unfolding run
read b = top (run b [])

pub read-write : (v : Value) → read (write v) ≡ some v
unfolding read write
read-write v = ap top (run-put v [] [])

-- The hash is the identity.
abbrev pub stack_codec : Codec
stack_codec = record {
  to_bytes = write;
  from_bytes = read;
  round_trip = read-write;
  sha256 = λ b. b;
}

-- ===== src/Capabilities/Blob/Progress.antt =====
-- A transfer of which the first chunks have come in.
use howm.Base.{
  ℕ, suc, ◌≡◌, refl, ap, ap₂, ◌∙◌, true, false, none, some, List, [], ◌∷◌, ◌++◌, map, Bytes,
  bytes_ord, nat_ord, leb, length, arith,
}
use howm.Capabilities.Payload.{}
use howm.Capabilities.Blob.{InboundTransfer, all_received, is_complete, assembled_data, joined}
use howm.Capabilities.Blob.Receiving.{repeated, set_at, put_chunk}

-- Rust's `concat`.
abbrev pub concat : List Bytes → Bytes
concat [] = []
concat (b ∷ bs) = b ++ concat bs

-- A transfer that has `done` and waits for as many chunks more as `n`.
abbrev pub progress : InboundTransfer → List Bytes → ℕ → InboundTransfer
progress t done n = record t {
  received = map (λ b. true) done ++ repeated false n;
  chunks = map some done ++ repeated none n;
}

pub map-append :
    {A B : Type 0} (f : A → B) (xs ys : List A) → map f (xs ++ ys) ≡ map f xs ++ map f ys
map-append f [] ys = refl
map-append f (x ∷ xs) ys = ap (λ l. f x ∷ l) (map-append f xs ys)

pub set_at-map :
    {A : Type 0} (f : Bytes → A) (done : List Bytes) (b : Bytes) (y : A) (ys : List A)
    → set_at (length done) (f b) (map f done ++ y ∷ ys) ≡ map f (done ++ b ∷ []) ++ ys
set_at-map f [] b y ys = refl
set_at-map f (d ∷ done) b y ys = ap (λ l. f d ∷ l) (set_at-map f done b y ys)

pub put_chunk-progress :
    (t : InboundTransfer) (done : List Bytes) (b : Bytes) (n : ℕ)
    → put_chunk (length done) b (progress t done (suc n)) ≡ progress t (done ++ b ∷ []) n
put_chunk-progress t done b n =
    ap₂ (λ rs cs. record t { received = rs; chunks = cs })
      (set_at-map (λ x. true) done b false (repeated false n))
      (set_at-map some done b none (repeated none n))

pub all_received-more :
    (done : List Bytes) (n : ℕ)
    → all_received (map (λ b. true) done ++ repeated false (suc n)) ≡ false
all_received-more [] n = refl
all_received-more (d ∷ done) n = all_received-more done n

pub all_received-done : (done : List Bytes) → all_received (map (λ b. true) done ++ []) ≡ true
all_received-done [] = refl
all_received-done (d ∷ done) = all_received-done done

pub joined-done : (done : List Bytes) → joined (map some done ++ []) ≡ concat done
joined-done [] = refl
joined-done (d ∷ done) = ap (λ l. d ++ l) (joined-done done)

pub length-progress :
    (done : List Bytes) (n : ℕ)
    → leb (length (map some done ++ repeated none (suc n))) (length done) ≡ false
length-progress [] n = ground arith
length-progress (d ∷ done) n = ground (arith, length-progress done n)

pub is_complete-more :
    (t : InboundTransfer) (done : List Bytes) (b : Bytes) (n : ℕ)
    → is_complete (put_chunk (length done) b (progress t done (suc (suc n)))) ≡ false
is_complete-more t done b n =
    ap is_complete (put_chunk-progress t done b (suc n)) ∙ all_received-more (done ++ b ∷ []) n

pub is_complete-last :
    (t : InboundTransfer) (done : List Bytes) (b : Bytes)
    → is_complete (put_chunk (length done) b (progress t done 1)) ≡ true
is_complete-last t done b =
    ap is_complete (put_chunk-progress t done b 0) ∙ all_received-done (done ++ b ∷ [])

pub assembled_data-last :
    (t : InboundTransfer) (done : List Bytes) (b : Bytes)
    → assembled_data (put_chunk (length done) b (progress t done 1)) ≡ concat (done ++ b ∷ [])
assembled_data-last t done b =
    ap assembled_data (put_chunk-progress t done b 0) ∙ joined-done (done ++ b ∷ [])

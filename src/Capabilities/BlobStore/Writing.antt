-- ===== src/Capabilities/BlobStore/Writing.antt =====
-- What one writer leaves in a store in which no other is at work.
use mathlib.Core.Option
use howm.Base.{
  ℕ, zero, suc, drop, subst, ◌+◌, ◌%◌, ◌^◌, ◌<◌, ◌≡◌, refl, sym, ap, Bool-cases, inl, inr, false,
  true, some, [], ◌∷◌, append-nil, Bytes, bytes_ord, ◌==◌, ==_self, Map, lookup, insert, remove,
  lookup-insert, All, All-mono, length, nat_eq, arith, if◌then◌else◌, Result, ok, err,
}
use howm.Protocol.Cbor.Codec.{Codec}
use howm.Capabilities.BlobStore.{
  BlobStore, StoreError, hash_mismatch, read_all, begin_write, set_file, overwrite, write, finalize,
}

-- No writer is at work or has left a file, and the blobs' files are in use.
abbrev pub AtRest : BlobStore → Type 0
AtRest s = (s.temps ≡ []) × All (λ e. e.1 < s.next) s.blobs

-- A blob was put in, or replaced, and no other changed.
abbrev pub Holds : Bytes → Bytes → BlobStore → BlobStore → Type 0
Holds hash b s s' =
    AtRest s' × ((k : Bytes) → read_all k s' ≡ (if hash == k then some b else read_all k s))

drop_nothing : (n : ℕ) → drop {A = ℕ} n [] ≡ []
drop_nothing zero = refl
drop_nothing (suc n) = refl

overwrite_nothing : (b : Bytes) → overwrite 0 b [] ≡ b
overwrite_nothing b = rw (drop_nothing (0 + length b)) (append-nil b)

-- The files after a new one with these contents.
abbrev pub filled : Bytes → BlobStore → ℕ → Bytes
filled b s = set_file s.next b (set_file s.next [] s.files)

filled_new : (b : Bytes) (s : BlobStore) → filled b s s.next ≡ b
filled_new b s = ground arith

pub filled_old : (b : Bytes) (s : BlobStore) (i : ℕ) → i < s.next → filled b s i ≡ s.files i
filled_old b s i h = ground arith

-- The store after a new file, with these blobs and no temporary one.
abbrev pub grown : Map Bytes ℕ → Bytes → BlobStore → BlobStore
grown blobs b s = record { blobs = blobs; temps = []; files = filled b s; next = s.next + 1 }

write_first :
    (hash b : Bytes) (s : BlobStore)
    → s.temps ≡ []
    → write b (begin_write hash, s) ≡ (
      record {
        expected_hash = hash;
        hashed = b;
        bytes_written = length b % 2 ^ 64;
        file = some (s.next, 0 + length b);
      },
      record (grown s.blobs b s) { temps = (hash, s.next) ∷ [] },
    )
unfolding write lookup insert
write_first hash b s e =
    let new : nat_eq s.next s.next ≡ true = ground arith in
    let count : 0 + length b ≡ length b = omega arith in
    rw (e, new, overwrite_nothing b, count) refl

remove_only : (hash : Bytes) (i : ℕ) → remove hash ((hash, i) ∷ []) ≡ []
unfolding remove
remove_only hash i = rw (==_self hash) refl

module _ (codec : Codec) (hash b : Bytes) (s : BlobStore) where
  -- All steps of one writer.
  abbrev pub put_blob : BlobStore × Result StoreError ℕ
  put_blob = finalize codec (write b (begin_write hash, s))

  pub put_blob-wrong :
      s.temps ≡ []
      → (codec.sha256 b == hash) ≡ false
      → put_blob ≡ (grown s.blobs b s, err hash_mismatch)
  unfolding finalize
  put_blob-wrong e wrong = rw (write_first hash b s e, wrong, remove_only hash s.next) refl

  pub put_blob-right :
      s.temps ≡ []
      → (codec.sha256 b == hash) ≡ true
      → put_blob ≡ (grown (insert hash s.next s.blobs) b s, ok (length b % 2 ^ 64))
  unfolding finalize lookup
  put_blob-right e right =
      rw (write_first hash b s e, right, ==_self hash) (rw (remove_only hash s.next) refl)

insert-All :
    (P : Bytes × ℕ → Type 0) (hash : Bytes) (i : ℕ) (m : Map Bytes ℕ)
    → P (hash, i)
    → All P m
    → All P (insert hash i m)
unfolding insert
insert-All P hash i [] p a = (p, tt)
insert-All P hash i ((k, j) ∷ m) p a = elim (Bool-cases (k == hash)) [
  | inl h ↦ rw h (p, a.1)
  | inr h ↦ elim (Bool-cases (bytes_ord.le hash k)) [
    | inl l ↦ rw (h, l) (p, a)
    | inr l ↦ rw (h, l) (a.0, insert-All P hash i m p a.1)
  ]
]

pub remove-All :
    (P : Bytes × ℕ → Type 0) (hash : Bytes) (m : Map Bytes ℕ) → All P m → All P (remove hash m)
unfolding remove
remove-All P hash [] a = a
remove-All P hash ((k, j) ∷ m) a = elim (Bool-cases (k == hash)) [
  | inl h ↦ rw h (remove-All P hash m a.1)
  | inr h ↦ rw h (a.0, remove-All P hash m a.1)
]

-- What holds of the blobs' files still does.
pub grown-All :
    (P : Bytes × Bytes → Type 0) (b : Bytes) (s : BlobStore)
    → AtRest s
    → All (λ e. P (e.0, s.files e.1)) s.blobs
    → All (λ e. P (e.0, filled b s e.1)) s.blobs
grown-All P b s (e, below) a = go s.blobs below a
  where
    go :
        (m : Map Bytes ℕ)
        → All (λ e. e.1 < s.next) m
        → All (λ e. P (e.0, s.files e.1)) m
        → All (λ e. P (e.0, filled b s e.1)) m
    go [] l a = tt
    go ((k, i) ∷ m) l a = (subst (λ c. P (k, c)) (sym (filled_old b s i l.0)) a.0, go m l.1 a.1)

pub grown-AtRest : (b : Bytes) (s : BlobStore) → AtRest s → AtRest (grown s.blobs b s)
grown-AtRest b s (e, below) =
    (refl, All-mono {P = λ e. e.1 < s.next} (λ e l. omega arith) s.blobs below)

pub grown-insert-AtRest :
    (hash b : Bytes) (s : BlobStore) → AtRest s → AtRest (grown (insert hash s.next s.blobs) b s)
grown-insert-AtRest hash b s r = (
  refl,
  insert-All (λ e. e.1 < s.next + 1) hash s.next s.blobs (omega arith) (grown-AtRest b s r).1,
)

pub grown-insert-All :
    (P : Bytes × Bytes → Type 0) (hash b : Bytes) (s : BlobStore)
    → AtRest s
    → P (hash, b)
    → All (λ e. P (e.0, s.files e.1)) s.blobs
    → All (λ e. P (e.0, filled b s e.1)) (insert hash s.next s.blobs)
grown-insert-All P hash b s r p a =
    insert-All (λ e. P (e.0, filled b s e.1)) hash s.next s.blobs
      (subst (λ c. P (hash, c)) (sym (filled_new b s)) p) (grown-All P b s r a)

-- A blob that was there is read as before.
kept :
    (b : Bytes) (s : BlobStore) (k : Bytes) (m : Map Bytes ℕ)
    → All (λ e. e.1 < s.next) m
    → Option.map (filled b s) (lookup k m) ≡ Option.map s.files (lookup k m)
unfolding lookup
kept b s k [] l = refl
kept b s k ((j, i) ∷ m) l = elim (Bool-cases (j == k)) [
  | inl e ↦ rw e (ap some (filled_old b s i l.0))
  | inr e ↦ rw e (kept b s k m l.1)
]

-- One writer that is alone puts the blob in, and changes no other.
pub put_blob-Holds :
    (codec : Codec) (b : Bytes) (s : BlobStore)
    → AtRest s
    → let hash = codec.sha256 b in Holds hash b s (grown (insert hash s.next s.blobs) b s)
put_blob-Holds codec b s r =
    let hash = codec.sha256 b in
    (
      grown-insert-AtRest hash b s r,
      λ k. rw (lookup-insert k hash s.next s.blobs) (elim (Bool-cases (hash == k)) [
        | inl e ↦ rw e (ap some (filled_new b s))
        | inr e ↦ rw e (kept b s k s.blobs r.1)
      ]),
    )

-- ===== src/Capabilities/BlobStore.antt =====
-- node/p2pcd/src/blob_store.rs: the blobs of a node by their hashes. A path is named by the hash in it. The file
-- system keeps what is written to it, and does not fail. One read of a file gives at most `most` bytes.
pub mod Writing
use mathlib.Core.Option
use howm.Base.{
  ℕ, zero, suc, ◌+◌, ◌-◌, ◌%◌, ◌^◌, min, Bool, not, Option, none, some, List, [], ◌∷◌, ◌++◌, Bytes,
  bytes_ord, ◌==◌, Map, lookup, insert, remove, length, take, drop, is_some, nat_eq, if◌then◌else◌,
  Result, ok, err,
}
use howm.Protocol.Cbor.Codec.{Codec}

-- The file that each path leads to, among the blobs and among the temporary files, and the contents of the
-- files; those from `next` on are not in use. Two writers of a hash have the same temporary path.
pub record BlobStore : Type 0 where
  pub blobs : Map Bytes ℕ
  pub temps : Map Bytes ℕ
  pub files : ℕ → Bytes
  pub next : ℕ

abbrev pub new_blob_store : BlobStore
new_blob_store = record { blobs = []; temps = []; files = λ i. []; next = 0 }

abbrev pub has : Bytes → BlobStore → Bool
has hash s = is_some (lookup hash s.blobs)

abbrev pub read_all : Bytes → BlobStore → Option Bytes
read_all hash s = Option.map s.files (lookup hash s.blobs)

abbrev pub size : Bytes → BlobStore → Option ℕ
size hash s = Option.map length (read_all hash s)

-- Nothing for a blob that is not there.
unfoldable pub read_chunk : ℕ → Bytes → ℕ → ℕ → BlobStore → Option Bytes
read_chunk most hash offset len s =
    Option.map (λ b. take (min len most) (drop offset b)) (read_all hash s)

unfoldable pub delete : Bytes → BlobStore → BlobStore × Bool
delete hash s = (record s { blobs = remove hash s.blobs }, has hash s)

-- What the hasher was given, and the file that was made, with the place where the next bytes go.
pub record BlobWriter : Type 0 where
  pub expected_hash : Bytes
  pub hashed : Bytes
  pub bytes_written : ℕ
  pub file : Option (ℕ × ℕ)

abbrev pub begin_write : Bytes → BlobWriter
begin_write hash = record { expected_hash = hash; hashed = []; bytes_written = 0; file = none }

abbrev pub set_file : ℕ → Bytes → (ℕ → Bytes) → ℕ → Bytes
set_file i b files j = if nat_eq i j then b else files j

abbrev pub zeros : ℕ → Bytes
zeros zero = []
zeros (suc n) = 0 ∷ zeros n

-- Bytes over those from a place on; a gap before it is filled with zeros.
abbrev pub overwrite : ℕ → Bytes → Bytes → Bytes
overwrite at b old = take at old ++ zeros (at - length old) ++ b ++ drop (at + length b) old

-- `File::create`: a file that is there is emptied.
abbrev pub create_temp : Bytes → Option ℕ → BlobStore → ℕ × BlobStore
create_temp hash (some i) s = (i, record s { files = set_file i [] s.files })
create_temp hash none s = (
  s.next,
  record s {
    temps = insert hash s.next s.temps;
    files = set_file s.next [] s.files;
    next = s.next + 1;
  },
)

abbrev pub open_file : BlobWriter → Option (ℕ × ℕ) → BlobStore → (ℕ × ℕ) × BlobStore
open_file w (some handle) s = (handle, s)
open_file w none s =
    let (i, s') = create_temp w.expected_hash (lookup w.expected_hash s.temps) s in ((i, 0), s')

abbrev pub write_at : Bytes → BlobWriter → (ℕ × ℕ) × BlobStore → BlobWriter × BlobStore
write_at b w ((i, at), s) = (
  record w {
    hashed = w.hashed ++ b;
    bytes_written = (w.bytes_written + length b) % 2 ^ 64;
    file = some (i, at + length b);
  },
  record s { files = set_file i (overwrite at b (s.files i)) s.files },
)

unfoldable pub write : Bytes → BlobWriter × BlobStore → BlobWriter × BlobStore
write b (w, s) = write_at b w (open_file w w.file s)

abbrev pub remove_temp : BlobWriter → BlobStore → BlobStore
remove_temp w s = record s { temps = remove w.expected_hash s.temps }

abbrev pub cancel : BlobWriter → BlobStore → BlobStore
cancel w s = remove_temp w s

pub data StoreError : Type 0 where
  hash_mismatch no_temp_file : StoreError

-- Whatever file is at the temporary path by now gets the path of the blob.
abbrev pub move_file : BlobWriter → Option ℕ → BlobStore → BlobStore × Result StoreError ℕ
move_file w none s = (s, err no_temp_file)
move_file w (some i) s =
    (record (remove_temp w s) { blobs = insert w.expected_hash i s.blobs }, ok w.bytes_written)

unfoldable pub finalize : Codec → BlobWriter × BlobStore → BlobStore × Result StoreError ℕ
finalize codec (w, s) =
    if not (codec.sha256 w.hashed == w.expected_hash)
    then (remove_temp w s, err hash_mismatch)
    else move_file w (lookup w.expected_hash s.temps) s

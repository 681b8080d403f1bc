-- ===== src/Object/Store.antt =====
-- pkg/object/store.go: the object store. SHA-256 (pkg/hash) and zstd (pkg/compression) are
-- parameters, and so is what each call of the operating system does.
pub mod Paths
pub mod Laws
pub mod Sample
use vara.Base.{
  true, false, ℕ, ◌≡◌, Bool, Option, none, some, List, [], ◌∷◌, ◌++◌, if◌then◌else◌, Bytes,
  bytes_eq, codes, take, drop, lookup, insert, erase, Error, Result, ok, err, failure,
  invalid_object, object_not_found,
}
use vara.Hash.{BaseId, to_string}
use vara.Object.{Object, serialize, deserialize}

-- The files below `ObjectsDir`, by their path. The directories are not kept.
abbrev pub Files : Type 0
Files = List (Bytes × Bytes)

-- What the calls of one `Write` do: whether `MkdirAll` and `Rename` succeed, whether `Stat` does on a
-- file that is there, and, where `WriteFile` fails, what it leaves in the temporary file.
pub record Calls : Type 0 where
  pub mkdir : Bool
  pub stat : Bool
  pub torn : Option Bytes
  pub rename : Bool

-- `hexHash[:2]`, a slash, `hexHash[2:]`.
unfoldable pub object_path : BaseId → Bytes
object_path id = take 2 (to_string id) ++ b'/' ∷ drop 2 (to_string id)

unfoldable pub tmp_path : BaseId → Bytes
tmp_path id = object_path id ++ codes ".tmp"

-- pkg/hash and pkg/compression.
pub record Codec : Type 0 where
  pub hash : Bytes → Bytes
  pub compress : Bytes → Bytes
  pub decompress : Bytes → Option Bytes

module _ (codec : Codec) where
  -- The part of `Write` from `WriteFile` on.
  unfoldable pub write_file : Calls → BaseId → Bytes → Files → Files × Option Error
  write_file calls id compressed files = elim calls.torn [
    | some left ↦ (insert (tmp_path id) left files, some failure)
    | none ↦
        let written = insert (tmp_path id) compressed files in
        if calls.rename
        then (insert (object_path id) compressed (erase (tmp_path id) written), none)
        else (erase (tmp_path id) written, some failure)
  ]

  -- `os.Stat`, of which only an error counts: a file that is there is not seen behind one.
  abbrev pub stat_file : Bool → Option Bytes → Option Bytes
  stat_file true found = found
  stat_file false found = none

  -- `Write` returns the identifier also with an error.
  unfoldable pub write : Calls → Object → Files → Files × BaseId × Option Error
  write calls obj files =
      let raw = serialize obj in
      let id = codec.hash raw in
      if calls.mkdir
      then elim (stat_file calls.stat (lookup (object_path id) files)) [
        | some _ ↦ (files, id, none)
        | none ↦ let (files', e) = write_file calls id (codec.compress raw) files in (files', id, e)
      ]
      else (files, id, some failure)

  -- What follows `Decompress`.
  unfoldable pub checked : BaseId → Option Bytes → Result Object
  checked id none = err invalid_object
  checked id (some raw) =
      if bytes_eq (codec.hash raw) id then deserialize raw else err invalid_object

  -- `Read` where `ReadFile` gives no other error than that of a missing file.
  unfoldable pub read : Files → BaseId → Result Object
  unfolding checked
  read files id = elim (lookup (object_path id) files) [
    | none ↦ err object_not_found
    | some compressed ↦ checked id (codec.decompress compressed)
  ]

  -- `Read`; `fails` says where `ReadFile` gives an error for a file that is there.
  abbrev pub read_on : (BaseId → Bool) → Files → BaseId → Result Object
  read_on fails files id = if fails id then err failure else read files id

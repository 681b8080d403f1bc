-- ===== src/Object.antt =====
-- pkg/object: blobs, trees and commits, and their byte format (object.go, blob.go, tree.go,
-- commit.go). A `bytes.Reader` is the list of the bytes that are left.
pub mod Read
pub mod Canonical
mod Tests
pub mod Store
use vara.Base.{
  ℕ, zero, suc, ◌≡◌, Bool, true, false, Option, none, some, List, [], ◌∷◌, ◌++◌, ltb, leb, ◌==◌,
  if◌then◌else◌, Bytes, bytes_eq, codes, length, take, drop, u32_bytes, u64_bytes, read_u32,
  read_u64, Result, ok, err, invalid_object, ◌>>=◌,
}
use vara.Hash.{BaseId}

pub data ObjectType : Type 0 where
  type_blob type_tree type_commit : ObjectType

-- The text of the constant.
abbrev pub type_name : ObjectType → Bytes
type_name type_blob = codes "vara-blob:v1"
type_name type_tree = codes "vara-tree:v1"
type_name type_commit = codes "vara-commit:v1"

pub record TreeEntry : Type 0 where
  pub mode : ℕ
  pub hash : BaseId
  pub name : Bytes

-- `timestamp` is the pattern of 64 bits of the `int64`.
pub record Commit : Type 0 where
  pub tree_hash : BaseId
  pub parents : List BaseId
  pub author : Bytes
  pub message : Bytes
  pub timestamp : ℕ

-- The interface `Object`: its three implementations.
pub data Object : Type 0 where
  blob : Bytes → Object
  tree : List TreeEntry → Object
  commit : Commit → Object

-- `Type` of each implementation.
abbrev pub type_of : Object → ObjectType
type_of (blob _) = type_blob
type_of (tree _) = type_tree
type_of (commit _) = type_commit

abbrev pub write_header : ObjectType → Bytes
write_header typ = type_name typ ++ 0 ∷ []

unfoldable pub entries_bytes : List TreeEntry → Bytes
entries_bytes [] = []
entries_bytes (e ∷ es) = u32_bytes e.mode ++ (e.hash ++ (e.name ++ 0 ∷ entries_bytes es))

unfoldable pub ids_bytes : List BaseId → Bytes
ids_bytes [] = []
ids_bytes (p ∷ ps) = p ++ ids_bytes ps

-- What follows the header.
unfoldable pub payload : Object → Bytes
payload (blob data_) = data_
payload (tree entries) = entries_bytes entries
payload (commit c) =
    c.tree_hash
    ++ (u32_bytes (length c.parents)
        ++ (ids_bytes c.parents ++ (u64_bytes c.timestamp ++ (c.author ++ 0 ∷ c.message))))

unfoldable pub serialize : Object → Bytes
unfolding payload
serialize o = write_header (type_of o) ++ payload o

-- `none` is `io.EOF`.
unfoldable pub read_until_nul : Bytes → Option (Bytes × Bytes)
read_until_nul [] = none
read_until_nul (b ∷ r) =
    let rest = read_until_nul r in
    if b == 0 then some ([], r) else elim rest [ none ↦ none | some (s, r') ↦ some (b ∷ s, r') ]

abbrev pub or_invalid {ℓ} : {A : Type ℓ} → Option A → Result A
or_invalid none = err invalid_object
or_invalid (some a) = ok a

unfoldable pub known_type : Bytes → Result ObjectType
known_type typ =
    if bytes_eq typ (type_name type_blob)
    then ok type_blob
    else if bytes_eq typ (type_name type_tree)
    then ok type_tree
    else if bytes_eq typ (type_name type_commit)
    then ok type_commit
    else err invalid_object

unfoldable pub read_header : Bytes → Result (ObjectType × Bytes)
read_header r = do (typ, rest) ← or_invalid (read_until_nul r); t ← known_type typ; ok (t, rest)

-- `r.Read` into an array of 32 bytes, with the test `n != 32`.
unfoldable pub read_id : Bytes → Option (BaseId × Bytes)
read_id r = if leb 32 (length r) then some (take 32 r, drop 32 r) else none

-- The body of the loop in `DeserializeTree`.
unfoldable pub read_entry : Bytes → Result (TreeEntry × Bytes)
read_entry r = do
  (mode, r₁) ← or_invalid (read_u32 r)
  (hash, r₂) ← or_invalid (read_id r₁)
  (name, r₃) ← or_invalid (read_until_nul r₂)
  ok (record { mode = mode; hash = hash; name = name }, r₃)

-- `for r.Len() > 0`, with fuel: each round takes bytes off the reader.
unfoldable pub read_entries : ℕ → Bytes → Result (List TreeEntry)
read_entries fuel [] = ok []
read_entries zero (b ∷ r) = err invalid_object
read_entries (suc fuel) (b ∷ r) = do
  (e, r') ← read_entry (b ∷ r)
  entries ← read_entries fuel r'
  ok (e ∷ entries)

unfoldable pub deserialize_tree : Bytes → Result Object
deserialize_tree r = do entries ← read_entries (length r) r; ok (tree entries)

-- The loop over `parentCount`.
unfoldable pub read_ids : ℕ → Bytes → Option (List BaseId × Bytes)
read_ids zero r = some ([], r)
read_ids (suc n) r = elim (read_id r) [
  | none ↦ none
  | some (p, r₁) ↦ elim (read_ids n r₁) [ none ↦ none | some (ps, r₂) ↦ some (p ∷ ps, r₂) ]
]

unfoldable pub deserialize_commit : Bytes → Result Object
deserialize_commit r = do
  (tree_hash, r₁) ← or_invalid (read_id r)
  (parent_count, r₂) ← or_invalid (read_u32 r₁)
  (parents, r₃) ← or_invalid (read_ids parent_count r₂)
  (timestamp, r₄) ← or_invalid (read_u64 r₃)
  (author, message) ← or_invalid (read_until_nul r₄)
  ok (
      commit (record {
        tree_hash = tree_hash;
        parents = parents;
        author = author;
        message = message;
        timestamp = timestamp;
      }))

abbrev pub deserialize_payload : ObjectType → Bytes → Result Object
deserialize_payload type_blob r = ok (blob r)
deserialize_payload type_tree r = deserialize_tree r
deserialize_payload type_commit r = deserialize_commit r

unfoldable pub deserialize : Bytes → Result Object
unfolding read_header
deserialize raw = do (typ, r) ← read_header raw; deserialize_payload typ r

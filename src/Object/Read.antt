-- ===== src/Object/Read.antt =====
-- pkg/object: what is read back from the bytes of an object.
use vara.Base.{
  ℕ, zero, suc, ◌^◌, ◌<◌, ◌≤◌, ◌≡◌, refl, some, List, [], ◌∷◌, ◌++◌, arith, Bytes, bytes_eq, length,
  length-append, take-append_eq, drop-append_eq, u32_bytes, u64_bytes, read_u32, read-u32, read-u64,
  length-u32_bytes, ok, ◌>>=◌,
}
use mathlib.Core.List.{append_assoc}
use vara.Hash.{BaseId}
use vara.Object.{
  ObjectType, type_blob, type_tree, type_commit, type_of, write_header, TreeEntry, Object, blob,
  tree, commit, entries_bytes, ids_bytes, payload, serialize, read_until_nul, known_type,
  read_header, read_id, read_entry, read_entries, read_ids, deserialize_tree, deserialize_commit,
  deserialize_payload, deserialize,
}

-- A name or an author without the terminator.
abbrev pub HasNoNul : Bytes → Type 0
HasNoNul [] = Unit {0}
HasNoNul (b ∷ s) = (0 < b) × HasNoNul s

abbrev pub Are32 : List BaseId → Type 0
Are32 [] = Unit {0}
Are32 (p ∷ ps) = (length p ≡ 32) × Are32 ps

abbrev pub AreEntries : List TreeEntry → Type 0
AreEntries [] = Unit {0}
AreEntries (e ∷ es) = (e.mode < 2 ^ 32) × (length e.hash ≡ 32) × HasNoNul e.name × AreEntries es

-- What Go's types give (widths, 32-byte arrays), and that no text holds the terminator.
abbrev pub IsWritable : Object → Type 0
IsWritable (blob _) = Unit {0}
IsWritable (tree entries) = AreEntries entries
IsWritable (commit c) =
    (length c.tree_hash ≡ 32)
    × (length c.parents < 2 ^ 32)
    × Are32 c.parents
    × (c.timestamp < 2 ^ 64)
    × HasNoNul c.author

pub read_until_nul-append :
    (s rest : Bytes) → HasNoNul s → read_until_nul (s ++ 0 ∷ rest) ≡ some (s, rest)
unfolding read_until_nul
read_until_nul-append [] rest h = refl
read_until_nul-append (b ∷ s) rest h = ground (arith, read_until_nul-append s rest h.1)

pub read_id-append : (id rest : Bytes) → length id ≡ 32 → read_id (id ++ rest) ≡ some (id, rest)
unfolding read_id
read_id-append id rest h =
    ground (arith, take-append_eq 32 id rest, drop-append_eq 32 id rest, length-append id rest)

read_ids-append :
    (ps : List BaseId) (rest : Bytes)
    → Are32 ps
    → read_ids (length ps) (ids_bytes ps ++ rest) ≡ some (ps, rest)
unfolding read_ids ids_bytes
read_ids-append [] rest h = refl
read_ids-append (p ∷ ps) rest h = ground (
  arith,
  append_assoc p (ids_bytes ps) rest,
  read_id-append p (ids_bytes ps ++ rest),
  read_ids-append ps rest,
)

read_header-append :
    (t : ObjectType) (rest : Bytes) → read_header (write_header t ++ rest) ≡ ok (t, rest)
unfolding read_header known_type read_until_nul bytes_eq
read_header-append type_blob rest = refl
read_header-append type_tree rest = refl
read_header-append type_commit rest = refl

read_entry-append :
    (e : TreeEntry) (rest : Bytes)
    → e.mode < 2 ^ 32
    → length e.hash ≡ 32
    → HasNoNul e.name
    → read_entry (u32_bytes e.mode ++ (e.hash ++ (e.name ++ 0 ∷ rest))) ≡ ok (e, rest)
unfolding read_entry
read_entry-append e rest hm hh hn = ground (
  arith,
  read-u32 e.mode (e.hash ++ (e.name ++ 0 ∷ rest)) hm,
  read_id-append e.hash (e.name ++ 0 ∷ rest) hh,
  read_until_nul-append e.name rest hn,
)

-- One round of the loop, on a reader that starts with an entry.
pub read_entries-step :
    (fuel : ℕ) (r : Bytes) (e : TreeEntry) (rest : Bytes)
    → read_entry r ≡ ok (e, rest)
    → read_entries (suc fuel) r ≡ (read_entries fuel rest >>= λ es. ok (e ∷ es))
read_entries-step fuel [] e rest h = unfold read_entry read_u32 in cc h
read_entries-step fuel (b ∷ r) e rest h = unfold read_entries in rw h

read-entries :
    (es : List TreeEntry) (fuel : ℕ)
    → AreEntries es
    → length es ≤ fuel
    → read_entries fuel (entries_bytes es) ≡ ok es
unfolding entries_bytes
read-entries [] fuel h le = unfold read_entries in refl
read-entries (e ∷ es) zero h le = absurd (omega arith)
read-entries (e ∷ es) (suc fuel) h le =
    rw
      (read_entries-step fuel _ e (entries_bytes es)
        (read_entry-append e (entries_bytes es) h.0 h.1 h.2))
      (rw (read-entries es fuel h.3 (omega arith)))

-- Each entry takes bytes, so the fuel, the length of the reader, is enough.
length-entries_bytes : (es : List TreeEntry) → length es ≤ length (entries_bytes es)
unfolding entries_bytes
length-entries_bytes [] = omega arith
length-entries_bytes (e ∷ es) = omega (
  arith,
  length-append (u32_bytes e.mode) (e.hash ++ (e.name ++ 0 ∷ entries_bytes es)),
  length-u32_bytes e.mode,
  length-append e.hash (e.name ++ 0 ∷ entries_bytes es),
  length-append e.name (0 ∷ entries_bytes es),
  length-entries_bytes es,
)

read-payload : (o : Object) → IsWritable o → deserialize_payload (type_of o) (payload o) ≡ ok o
unfolding payload
read-payload (blob b) h = refl
read-payload (tree es) h =
    unfold deserialize_tree in
    rw (read-entries es (length (entries_bytes es)) h (length-entries_bytes es))
read-payload (commit c) h =
    unfold deserialize_commit in
    ground (
      arith,
      read_id-append c.tree_hash (
          u32_bytes (length c.parents)
          ++ (ids_bytes c.parents ++ (u64_bytes c.timestamp ++ (c.author ++ 0 ∷ c.message)))),
      read-u32 (length c.parents)
          (ids_bytes c.parents ++ (u64_bytes c.timestamp ++ (c.author ++ 0 ∷ c.message))),
      read_ids-append c.parents (u64_bytes c.timestamp ++ (c.author ++ 0 ∷ c.message)),
      read-u64 c.timestamp (c.author ++ 0 ∷ c.message),
      read_until_nul-append c.author c.message,
    )

-- Every object that can be written is read back.
pub deserialize-serialize : (o : Object) → IsWritable o → deserialize (serialize o) ≡ ok o
unfolding deserialize serialize
deserialize-serialize o h = rw (read_header-append (type_of o) (payload o)) (read-payload o h)

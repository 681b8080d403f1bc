-- ===== src/Index.antt =====
-- pkg/index/index.go: the staging area and its file.
pub mod Codec
mod Tests
use vara.Base.{
  ℕ, zero, suc, ◌≡◌, Option, none, some, List, [], ◌∷◌, ◌++◌, ◌==◌, if◌then◌else◌, Bytes, bytes_eq,
  codes, length, take, drop, u32_bytes, u64_bytes, read_u32, read_u64, Result, ok, err,
  corrupt_index, ◌>>=◌, guard,
}
use vara.Hash.{BaseId}
use vara.Object.{read_id, read_until_nul}

-- `EntryState`, any value of its 8 bits.
abbrev pub state_unmodified : ℕ
state_unmodified = 0

abbrev pub state_added : ℕ
state_added = 1

abbrev pub state_modified : ℕ
state_modified = 2

abbrev pub state_deleted : ℕ
state_deleted = 3

pub record Entry : Type 0 where
  pub fingerprint : ℕ
  pub object_id : BaseId
  pub state : ℕ
  pub path : Bytes

abbrev pub signature : Bytes
signature = codes "VARA"

abbrev pub version : ℕ
version = 1

unfoldable pub entry_bytes : Entry → Bytes → Bytes
entry_bytes e rest = u64_bytes e.fingerprint ++ (e.object_id ++ e.state ∷ (e.path ++ 0 ∷ rest))

unfoldable pub entries_bytes : List Entry → Bytes
entries_bytes [] = []
entries_bytes (e ∷ es) = entry_bytes e (entries_bytes es)

-- `Serialize`: writes to a buffer do not fail. The count is cut to 32 bits.
unfoldable pub serialize : List Entry → Bytes
serialize entries =
    signature ++ (u32_bytes version ++ (u32_bytes (length entries) ++ entries_bytes entries))

abbrev pub or_corrupt {ℓ} : {A : Type ℓ} → Option A → Result A
or_corrupt none = err corrupt_index
or_corrupt (some a) = ok a

unfoldable pub read_byte : Bytes → Option (ℕ × Bytes)
read_byte [] = none
read_byte (b ∷ r) = some (b, r)

-- The body of the loop.
unfoldable pub read_entry : Bytes → Result (Entry × Bytes)
read_entry r = do
  (fingerprint, r₁) ← or_corrupt (read_u64 r)
  (object_id, r₂) ← or_corrupt (read_id r₁)
  (state, r₃) ← or_corrupt (read_byte r₂)
  (path, r₄) ← or_corrupt (read_until_nul r₃)
  ok (record { fingerprint = fingerprint; object_id = object_id; state = state; path = path }, r₄)

unfoldable pub read_entries : ℕ → Bytes → Result (List Entry × Bytes)
read_entries zero r = ok ([], r)
read_entries (suc n) r = do (e, r₁) ← read_entry r; (es, r₂) ← read_entries n r₁; ok (e ∷ es, r₂)

-- `Deserialize`. A short read leaves zeros in `sig`, which are not the signature.
unfoldable pub deserialize : Bytes → Result (List Entry)
deserialize r = do
  _ ← guard (bytes_eq (take 4 r) signature) corrupt_index
  (v, r₁) ← or_corrupt (read_u32 (drop 4 r))
  _ ← guard (v == version) corrupt_index
  (count, r₂) ← or_corrupt (read_u32 r₁)
  (entries, rest) ← read_entries count r₂
  ok entries

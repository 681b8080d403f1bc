-- ===== src/Object/Tests.antt =====
-- pkg/object and pkg/types: the theorems at concrete objects, and runs of the codec.
use vara.Base.{
  ◌⊎◌, false, ℕ, zero, suc, ◌≡◌, refl, true, none, some, [], ◌∷◌, ◌++◌, arith, Bytes, IsBytes,
  bytes_eq, bytes_eq_iff, bytes_eq_refl, ◌≢◌, insert, erase, codes, lookup, ok, err, invalid_object,
  u32_bytes, read_u32,
}
use vara.Hash.{BaseId, hex_digit, to_string}
use vara.Object.{
  Object, blob, tree, commit, serialize, entries_bytes, deserialize, deserialize_tree, known_type,
  read_until_nul, read_id, read_entry, read_entries,
}
use vara.Object.Read.{deserialize-serialize}
use vara.Object.Canonical.{serialize-deserialize}
use vara.Object.Store.{Files, Calls, write, write_file, read, object_path, tmp_path}
use vara.Object.Store.Sample.{raw_blob, ones, blob_codec, blob_codec-IsCodec}
use vara.Object.Store.Laws.{Holds, write_keeps, write-IsSound, read-eq-ok, read-write}

abbrev fill : ℕ → ℕ → Bytes
fill zero b = []
fill (suc n) b = b ∷ fill n b

abbrev sample_id : BaseId
sample_id = fill 32 171

abbrev sample_tree : Object
sample_tree = tree (record { mode = 0x81A4; hash = sample_id; name = codes "a.txt" } ∷ [])

abbrev sample_commit : Object
sample_commit = commit (record {
  tree_hash = sample_id;
  parents = sample_id ∷ [];
  author = codes "ann";
  message = codes "first";
  timestamp = 1_700_000_000;
})

deserialize-serialize_example : deserialize (serialize sample_commit) ≡ ok sample_commit
deserialize-serialize_example = deserialize-serialize sample_commit (omega arith)

read_back : deserialize (serialize sample_tree) ≡ ok sample_tree
unfolding serialize entries_bytes u32_bytes read_u32 deserialize known_type read_until_nul
    deserialize_tree read_entries read_entry read_id bytes_eq
read_back = refl

unknown_header : deserialize (codes "vara-tag:v1" ++ 0 ∷ []) ≡ err invalid_object
unfolding deserialize known_type read_until_nul bytes_eq
unknown_header = refl

read_blob : deserialize raw_blob ≡ ok (blob (104 ∷ 105 ∷ []))
unfolding deserialize known_type read_until_nul bytes_eq
read_blob = refl

serialize-deserialize_example : serialize (blob (104 ∷ 105 ∷ [])) ≡ raw_blob
serialize-deserialize_example =
    serialize-deserialize raw_blob (blob (104 ∷ 105 ∷ [])) (omega arith) read_blob

abbrev calls_succeed : Calls
calls_succeed = record { mkdir = true; stat = true; torn = none; rename = true }

abbrev hi : Object
hi = blob (104 ∷ 105 ∷ [])

hi_bytes : serialize hi ≡ raw_blob
unfolding serialize
hi_bytes = refl

hi-IsBytes : IsBytes (serialize hi)
unfolding serialize
hi-IsBytes = omega arith

hi_unique :
    (raw : Bytes) → blob_codec.hash raw ≡ blob_codec.hash (serialize hi) → raw ≡ serialize hi
hi_unique raw h = ground (arith, hi_bytes, bytes_eq_iff raw raw_blob, bytes_eq_refl raw_blob)

empty_lookup : (k content : Bytes) → lookup {V = Bytes} k [] ≢ some content
unfolding lookup
empty_lookup k content = cc

read-write_example :
    read blob_codec (write blob_codec calls_succeed hi []).0 (blob_codec.hash (serialize hi))
    ≡ ok hi
read-write_example =
    read-write blob_codec blob_codec-IsCodec calls_succeed hi [] tt hi-IsBytes
      (λ id content _ h. absurd (empty_lookup (object_path id) content h)) hi_unique refl refl refl

abbrev hi_files : Files
hi_files = (write blob_codec calls_succeed hi []).0

hi_file : lookup (object_path ones) hi_files ≡ some raw_blob
unfolding write write_file object_path tmp_path lookup insert erase bytes_eq serialize to_string
    hex_digit
hi_file = refl

abbrev calls_torn : Calls
calls_torn = record { mkdir = true; stat = true; torn = some (1 ∷ []); rename = true }

write_keeps_example :
    (lookup (object_path ones) (write blob_codec calls_torn sample_tree hi_files).0 ≡ some raw_blob)
    ⊎ (calls_torn.stat ≡ false)
      × (ones ≡ blob_codec.hash (serialize sample_tree))
      × (lookup (object_path ones) (write blob_codec calls_torn sample_tree hi_files).0
          ≡ some (blob_codec.compress (serialize sample_tree)))
write_keeps_example =
    write_keeps blob_codec blob_codec-IsCodec calls_torn sample_tree hi_files ones raw_blob
      (omega arith) hi_file

write-IsSound_example : Holds blob_codec blob_codec-IsCodec ones raw_blob
write-IsSound_example =
    write-IsSound blob_codec blob_codec-IsCodec calls_succeed hi [] hi-IsBytes
      (λ id c _ h. absurd (empty_lookup (object_path id) c h)) ones raw_blob (omega arith) hi_file

read-eq-ok_example : blob_codec.hash (serialize hi) ≡ blob_codec.hash (serialize hi)
read-eq-ok_example =
    read-eq-ok blob_codec blob_codec-IsCodec hi_files (blob_codec.hash (serialize hi)) hi
      read-write_example

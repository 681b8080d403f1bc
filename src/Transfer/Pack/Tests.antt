-- ===== src/Transfer/Pack/Tests.antt =====
-- pkg/transfer/pack.go: a pack of one object, and the theorems at it.
use vara.Base.{
  ℕ, ◌≡◌, refl, sym, ap, ◌∙◌, true, none, some, [], ◌∷◌, ◌++◌, arith, length, Bytes, IsBytes,
  bytes_eq, bytes_eq_iff, lookup, u32_bytes, read_u32, Member, inl, inr, ◌≤◌, ok, ok-injective,
  failure, ◌^◌,
}
use vara.Hash.{BaseId, IsId, to_string, hex_digit}
use vara.Object.{Object, blob, serialize, deserialize, known_type, read_header, read_until_nul}
use vara.Object.Store.{Files, Calls, object_path, read, write, checked}
use vara.Object.Store.Laws.{IsSound, write-IsSound}
use vara.Object.Store.Sample.{raw_blob, ones, blob_codec, blob_codec-IsCodec, all_bytes}
use vara.Transfer.Pack.{
  pack_header, pack_record, pack_records, write_pack, read_record, read_records, read_body,
  read_pack,
}
use vara.Transfer.Pack.Varint.{put_uvarint, read_uvarint}
use vara.Transfer.Pack.Keeps.{read_pack_keeps}
use vara.Transfer.Pack.RoundTrip.{Arrived, read_pack-write_pack}

abbrev hi : Object
hi = blob (104 ∷ 105 ∷ [])

abbrev sender : Files
sender = (object_path ones, raw_blob) ∷ []

sent : read blob_codec sender ones ≡ ok hi
unfolding read checked lookup object_path to_string hex_digit bytes_eq all_bytes deserialize
    read_header known_type read_until_nul
sent = refl

abbrev calls : ℕ → Calls
calls n = record { mkdir = true; stat = true; torn = none; rename = true }

abbrev pack : Bytes
pack = (pack_header 1 ++ 15 ∷ raw_blob) ++ blob_codec.hash (pack_header 1 ++ 15 ∷ raw_blob)

packed : write_pack blob_codec sender (ones ∷ []) ≡ ok pack
unfolding write_pack pack_records pack_record put_uvarint read checked lookup object_path to_string
    hex_digit bytes_eq all_bytes deserialize read_header known_type read_until_nul serialize
    u32_bytes
packed = refl

only_one :
    (id : BaseId) (o : Object) → Member id (ones ∷ []) → read blob_codec sender id ≡ ok o → o ≡ hi
only_one id o (inl e) h = ok-injective (sym h ∙ ap (read blob_codec sender) e ∙ sent)
only_one id o (inr n) h = absurd n

hi_bytes : serialize hi ≡ raw_blob
unfolding serialize
hi_bytes = refl

small :
    (id : BaseId) (o : Object)
    → Member id (ones ∷ [])
    → read blob_codec sender id ≡ ok o
    → length (blob_codec.compress (serialize o)) ≤ 100
small id o m h =
    let size : length (serialize o) ≡ length raw_blob =
      ap (λ (x : Object). length (serialize x)) (only_one id o m h) ∙ ap length hi_bytes in
    omega arith

unique :
    (id : BaseId) (o : Object) (raw : Bytes)
    → Member id (ones ∷ [])
    → read blob_codec sender id ≡ ok o
    → blob_codec.hash raw ≡ id
    → raw ≡ serialize o
unique id o raw (inl e) h same =
    let known : blob_codec.hash raw ≡ ones = same ∙ e in
    let text : raw ≡ raw_blob = ground (arith, bytes_eq_iff raw raw_blob) in
    text ∙ sym hi_bytes ∙ ap serialize (sym (only_one id o (inl e) h))
unique id o raw (inr n) h same = absurd n

no_files-IsSound : IsSound blob_codec blob_codec-IsCodec []
unfolding lookup
no_files-IsSound id content hi h = cc h

read_pack-write_pack_example :
    (files' : Files) × (read_pack blob_codec 100 calls pack []
      ≡ some (files', record { objects_read = 1; objects_written = 1 }, none))
    × Arrived blob_codec blob_codec-IsCodec 100 calls sender (ones ∷ []) [] files'
read_pack-write_pack_example =
    read_pack-write_pack blob_codec blob_codec-IsCodec 100 calls sender (omega arith) (λ n. refl)
      (λ n. refl) (λ n. refl) (λ n. refl) (ones ∷ []) pack [] small unique (omega arith) packed
      no_files-IsSound

-- A record with no bytes behind its length: an error, and the files stay as they are.
abbrev short_body : Bytes
short_body = pack_header 2 ++ 5 ∷ []

abbrev cut_pack : Bytes
cut_pack = short_body ++ blob_codec.hash (short_body)

abbrev stored : Files
stored = (write blob_codec (calls 0) hi []).0

hi-IsBytes : IsBytes (serialize hi)
unfolding serialize
hi-IsBytes = omega arith

stored-IsSound : IsSound blob_codec blob_codec-IsCodec stored
stored-IsSound id content i h =
    write-IsSound blob_codec blob_codec-IsCodec (calls 0) hi [] hi-IsBytes no_files-IsSound id
      content i h

cut_run :
    read_pack blob_codec 100 calls cut_pack stored
    ≡ some (stored, record { objects_read = 0; objects_written = 0 }, some failure)
unfolding read_pack read_body read_records read_record read_uvarint read_u32 u32_bytes bytes_eq
cut_run = refl

read_pack_keeps_example :
    IsSound blob_codec blob_codec-IsCodec stored
    × ((j : BaseId) (content : Bytes)
        → IsId j
        → lookup (object_path j) stored ≡ some content
        → lookup (object_path j) stored ≡ some content)
read_pack_keeps_example =
    read_pack_keeps blob_codec blob_codec-IsCodec 100 calls (λ n. refl) cut_pack stored
      (stored, record { objects_read = 0; objects_written = 0 }, some failure) cut_run
      stored-IsSound

-- A declared length above what `make` takes: a panic.
abbrev long_body : Bytes
long_body = pack_header 1 ++ 255 ∷ 255 ∷ 255 ∷ 255 ∷ 255 ∷ 255 ∷ 255 ∷ 255 ∷ 255 ∷ 1 ∷ []

long_run : read_pack blob_codec (2 ^ 48) calls (long_body ++ blob_codec.hash long_body) [] ≡ none
unfolding read_pack read_body read_records read_record read_uvarint read_u32 u32_bytes bytes_eq
long_run = refl

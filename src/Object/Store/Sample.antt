-- ===== src/Object/Store/Sample.antt =====
-- Codecs for the tests of the object store: they do not compress.
use vara.Base.{
  ℕ, zero, suc, ◌+◌, ◌*◌, ◌%◌, ◌≡◌, ◌↔◌, refl, Bool, true, none, some, [], ◌∷◌, ◌++◌, ◌&&◌, arith,
  ltb, if◌then◌else◌, Bytes, IsBytes, bytes_eq, subst, codes, length,
}
use vara.Hash.{BaseId, IsId}
use vara.Object.Store.{Codec}
use vara.Object.Store.Laws.{IsCodec}

unfoldable pub fill : ℕ → ℕ → Bytes
fill zero b = []
fill (suc n) b = b ∷ fill n b

fill-IsBytes : (n b : ℕ) → b ≡ b % 251 → IsBytes (fill n b)
unfolding fill
fill-IsBytes zero b h = tt
fill-IsBytes (suc n) b h = (omega arith, fill-IsBytes n b h)

length-fill : (n b : ℕ) → length (fill n b) ≡ n
unfolding fill
length-fill zero b = refl
length-fill (suc n) b = omega (arith, length-fill n b)

unfoldable pub all_bytes : Bytes → Bool
all_bytes [] = true
all_bytes (b ∷ s) = ltb b 256 && all_bytes s

all_bytes_iff : (s : Bytes) → (all_bytes s ≡ true) ↔ IsBytes s
unfolding all_bytes
all_bytes_iff [] = (λ _. tt, λ _. refl)
all_bytes_iff (b ∷ s) = ground (arith, all_bytes_iff s)

unfoldable pub checksum : ℕ → Bytes → ℕ
checksum h [] = h % 251
checksum h (b ∷ s) = checksum (h * 31 + b) s

checksum-mod : (s : Bytes) (h : ℕ) → checksum h s ≡ checksum h s % 251
unfolding checksum
checksum-mod [] h = omega arith
checksum-mod (b ∷ s) h = checksum-mod s (h * 31 + b)

-- The hash repeats a checksum: it tells the objects of a small store apart.
abbrev pub sum_codec : Codec
sum_codec = record {
  hash = λ raw. fill 32 (checksum 7 raw);
  compress = λ raw. raw;
  decompress = λ c. if all_bytes c then some c else none;
}

sum_hash-IsId : (raw : Bytes) → IsId (sum_codec.hash raw)
sum_hash-IsId raw =
    (length-fill 32 (checksum 7 raw), fill-IsBytes 32 (checksum 7 raw) (checksum-mod raw 7))

raw_round : (raw : Bytes) → IsBytes raw → sum_codec.decompress (sum_codec.compress raw) ≡ some raw
raw_round raw h = ground (arith, all_bytes_iff raw)

raw_bytes : (c raw : Bytes) → sum_codec.decompress c ≡ some raw → IsBytes raw
raw_bytes c raw h =
    let same : c ≡ raw = ground arith in subst IsBytes same ((all_bytes_iff c).0 (ground arith))

pub sum_codec-IsCodec : IsCodec sum_codec
sum_codec-IsCodec = record { hash_id = sum_hash-IsId; round = raw_round; bytes = raw_bytes }

abbrev pub raw_blob : Bytes
raw_blob = codes "vara-blob:v1" ++ 0 ∷ 104 ∷ 105 ∷ []

abbrev ones_to : ℕ → ℕ → Bytes
ones_to zero b = []
ones_to (suc n) b = b ∷ ones_to n b

abbrev pub ones : BaseId
ones = ones_to 32 1

-- The hash tells one text from all others.
abbrev pub blob_codec : Codec
blob_codec = record {
  hash = λ raw. if bytes_eq raw raw_blob then ones else ones_to 32 0;
  compress = λ raw. raw;
  decompress = λ c. if all_bytes c then some c else none;
}

blob_hash-IsId : (raw : Bytes) → IsId (blob_codec.hash raw)
blob_hash-IsId raw = ground arith

pub blob_codec-IsCodec : IsCodec blob_codec
blob_codec-IsCodec = record { hash_id = blob_hash-IsId; round = raw_round; bytes = raw_bytes }

-- ===== src/Index/Tests.antt =====
-- pkg/index: the theorems on a small index.
use vara.Base.{
  ℕ, suc, zero, ◌≡◌, refl, List, [], ◌∷◌, ◌++◌, arith, Bytes, bytes_eq, codes, read_u32, ok, err,
  corrupt_index,
}
use vara.Index.{Entry, serialize, read_entries, deserialize}
use vara.Index.Codec.{deserialize-serialize_append}

abbrev fill : ℕ → ℕ → Bytes
fill zero b = []
fill (suc n) b = b ∷ fill n b

abbrev staged : List Entry
staged = record { fingerprint = 7; object_id = fill 32 9; state = 1; path = codes "a/b" } ∷ []

deserialize-serialize_append_example : deserialize (serialize staged ++ 1 ∷ 2 ∷ []) ≡ ok staged
deserialize-serialize_append_example =
    deserialize-serialize_append staged (1 ∷ 2 ∷ []) (omega arith) (omega arith)

abbrev raw_empty : Bytes
raw_empty = codes "VARA" ++ 0 ∷ 0 ∷ 0 ∷ 1 ∷ 0 ∷ 0 ∷ 0 ∷ 0 ∷ 5 ∷ []

read-raw_empty : deserialize raw_empty ≡ ok []
unfolding deserialize read_u32 read_entries bytes_eq
read-raw_empty = refl

read-short : deserialize (codes "VAR") ≡ err corrupt_index
unfolding deserialize bytes_eq
read-short = refl

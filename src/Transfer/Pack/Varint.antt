-- ===== src/Transfer/Pack/Varint.antt =====
-- `binary.PutUvarint` and `binary.ReadUvarint`, with which pkg/transfer/pack.go frames a record.
use vara.Base.{
  ℕ, zero, suc, ◌+◌, ◌-◌, ◌*◌, ◌/◌, ◌%◌, ◌^◌, ◌<◌, ◌≡◌, Option, none, some, [], ◌∷◌, ◌++◌, arith,
  ltb, ◌==◌, ◌&&◌, if◌then◌else◌, Bytes, Bool-cases, inl, inr,
}
use native.Mathlib.Nat.{pow-suc}

-- The rounds that are left after this one; a 64-bit number has ten bytes at most.
unfoldable pub put_from : ℕ → ℕ → Bytes
put_from zero x = x ∷ []
put_from (suc left) x =
    let rest = put_from left (x / 128) in if ltb x 128 then x ∷ [] else (x % 128 + 128) ∷ rest

unfoldable pub put_uvarint : ℕ → Bytes
unfolding put_from
put_uvarint x = put_from 9 x

abbrev pub put_low : ℕ → Option (ℕ × Bytes) → Option (ℕ × Bytes)
put_low b none = none
put_low b (some (x, r)) = some (b + 128 * x, r)

-- `none`: the bytes end, or the number has more than 64 bits.
unfoldable pub read_from : ℕ → Bytes → Option (ℕ × Bytes)
read_from zero buf = none
read_from (suc left) [] = none
read_from (suc left) (b ∷ r) =
    let rest = read_from left r in
    if ltb b 128
    then (if (left == 0) && ltb 1 b then none else some (b, r))
    else put_low (b - 128) rest

unfoldable pub read_uvarint : Bytes → Option (ℕ × Bytes)
unfolding read_from
read_uvarint buf = read_from 10 buf

read-put_from :
    (left x : ℕ) (rest : Bytes)
    → x < 2 * 128 ^ left
    → read_from (suc left) (put_from left x ++ rest) ≡ some (x, rest)
unfolding put_from read_from
read-put_from zero x rest h = ground arith
read-put_from (suc left) x rest h = elim (Bool-cases (ltb x 128)) [
  | inl small ↦ ground arith
  | inr big ↦
      let power : 128 ^ suc left ≡ 128 ^ left * 128 = pow-suc 128 left in
      let fits : x / 128 < 2 * 128 ^ left = omega arith in
      ground (arith, read-put_from left (x / 128) rest fits)
]

-- A 64-bit number is read back, whatever bytes follow it.
pub read_uvarint-put_uvarint :
    (x : ℕ) (rest : Bytes) → x < 2 ^ 64 → read_uvarint (put_uvarint x ++ rest) ≡ some (x, rest)
unfolding put_uvarint read_uvarint
read_uvarint-put_uvarint x rest h = read-put_from 9 x rest h

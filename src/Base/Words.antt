-- ===== src/Base/Words.antt =====
-- Unsigned words in big-endian bytes, as `encoding/binary` writes and reads them.
use Prim.Native.Nat.{ℕ, ◌+◌, ◌*◌, ◌/◌, ◌%◌, ◌^◌, ◌<◌}
use mathlib.Core.Path.{◌≡◌, refl}
use mathlib.Core.List.{[], ◌∷◌, ◌++◌}
use mathlib.Core.Option.{Option, none, some}
use native.Mathlib.Omega.{arith}
use vara.Base.Lists.{Bytes, length}

-- Every element is a byte.
abbrev pub IsBytes : Bytes → Type 0
IsBytes [] = Unit {0}
IsBytes (b ∷ bs) = (b < 256) × IsBytes bs

unfoldable pub u32_bytes : ℕ → Bytes
u32_bytes x = x / 2 ^ 24 % 256 ∷ x / 2 ^ 16 % 256 ∷ x / 2 ^ 8 % 256 ∷ x % 256 ∷ []

unfoldable pub read_u32 : Bytes → Option (ℕ × Bytes)
read_u32 (a ∷ b ∷ c ∷ d ∷ rest) = some (a * 2 ^ 24 + b * 2 ^ 16 + c * 2 ^ 8 + d, rest)
read_u32 _ = none

pub read-u32 : (x : ℕ) (rest : Bytes) → x < 2 ^ 32 → read_u32 (u32_bytes x ++ rest) ≡ some (x, rest)
unfolding read_u32 u32_bytes
read-u32 x rest h = ground arith

unfoldable pub u64_bytes : ℕ → Bytes
u64_bytes x = u32_bytes (x / 2 ^ 32) ++ u32_bytes (x % 2 ^ 32)

unfoldable pub read_u64 : Bytes → Option (ℕ × Bytes)
read_u64 (a ∷ b ∷ c ∷ d ∷ e ∷ f ∷ g ∷ h ∷ rest) = some (
  (a * 2 ^ 24 + b * 2 ^ 16 + c * 2 ^ 8 + d) * 2 ^ 32 + (e * 2 ^ 24 + f * 2 ^ 16 + g * 2 ^ 8 + h),
  rest,
)
read_u64 _ = none

pub read-u64 : (x : ℕ) (rest : Bytes) → x < 2 ^ 64 → read_u64 (u64_bytes x ++ rest) ≡ some (x, rest)
unfolding read_u64 u64_bytes read_u32 u32_bytes
read-u64 x rest h = ground (arith, read-u32 (x / 2 ^ 32) rest, read-u32 (x % 2 ^ 32) rest)

pub length-u32_bytes : (x : ℕ) → length (u32_bytes x) ≡ 4
unfolding u32_bytes
length-u32_bytes x = refl

pub length-u64_bytes : (x : ℕ) → length (u64_bytes x) ≡ 8
unfolding u64_bytes u32_bytes
length-u64_bytes x = refl

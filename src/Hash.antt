-- ===== src/Hash.antt =====
-- pkg/types/id.go: 32-byte identifiers and their 64 hexadecimal digits.
use vara.Base.{
  ℕ, ◌+◌, ◌-◌, ◌*◌, ◌/◌, ◌%◌, ◌<◌, ◌≡◌, refl, ◌&&◌, Option, none, some, [], ◌∷◌, arith, ltb, leb,
  ◌==◌, if◌then◌else◌, Bytes, IsBytes, length, Result, ok, err, failure,
}

-- `BaseID`, and the strong types over it. A value has 32 bytes, see `IsId`.
abbrev pub BaseId : Type 0
BaseId = Bytes

abbrev pub IsId : Bytes → Type 0
IsId id = (length id ≡ 32) × IsBytes id

unfoldable pub hex_digit : ℕ → ℕ
hex_digit n = if ltb n 10 then b'0' + n else b'a' + (n - 10)

-- `hex.DecodeString` reads the letters of either case.
unfoldable pub hex_value : ℕ → Option ℕ
hex_value c =
    if leb b'0' c && leb c b'9'
    then some (c - b'0')
    else if leb b'a' c && leb c b'f'
    then some (c - b'a' + 10)
    else if leb b'A' c && leb c b'F'
    then some (c - b'A' + 10)
    else none

-- `BaseID.String`, by `hex.EncodeToString`.
unfoldable pub to_string : BaseId → Bytes
to_string [] = []
to_string (b ∷ id) = hex_digit (b / 16) ∷ hex_digit (b % 16) ∷ to_string id

abbrev pub join_digits : Option ℕ → Option ℕ → Option Bytes → Option Bytes
join_digits (some h) (some l) (some rest) = some ((h * 16 + l) ∷ rest)
join_digits _ _ _ = none

unfoldable pub decode_string : Bytes → Option Bytes
decode_string [] = some []
decode_string (h ∷ []) = none
decode_string (h ∷ l ∷ rest) = join_digits (hex_value h) (hex_value l) (decode_string rest)

abbrev pub or_failure : Option Bytes → Result BaseId
or_failure none = err failure
or_failure (some b) = ok b

unfoldable pub parse_hex : Bytes → Result BaseId
unfolding decode_string
parse_hex s = if length s == 64 then or_failure (decode_string s) else err failure

digit_back : (n : ℕ) → n < 16 → hex_value (hex_digit n) ≡ some n
unfolding hex_value hex_digit
digit_back n h = ground arith

decode-to_string : (id : BaseId) → IsBytes id → decode_string (to_string id) ≡ some id
unfolding decode_string to_string
decode-to_string [] h = refl
decode-to_string (b ∷ id) h =
    ground (arith, digit_back (b / 16), digit_back (b % 16), decode-to_string id)

pub length-to_string : (id : BaseId) → length (to_string id) ≡ length id * 2
unfolding to_string
length-to_string [] = refl
length-to_string (b ∷ id) = omega (arith, length-to_string id)

-- Parsing the text of an identifier gives the identifier back.
pub parse_hex-to_string : (id : BaseId) → IsId id → parse_hex (to_string id) ≡ ok id
unfolding parse_hex
parse_hex-to_string id h = ground (arith, length-to_string id, decode-to_string id h.1)

-- Two identifiers with one text are one.
pub to_string-injective : (a b : BaseId) → IsId a → IsId b → to_string a ≡ to_string b → a ≡ b
to_string-injective a b ha hb e = cc (decode-to_string a ha.1, decode-to_string b hb.1)

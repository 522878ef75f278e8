-- ===== src/GoStd/Encoding.antt =====
-- encoding/hex `DecodeString` and `EncodeToString`, encoding/base64 `StdEncoding.EncodeToString`, and `%d` of package fmt.
use zipstash.Base.{
  ℕ, zero, suc, ◌+◌, ◌-◌, ◌*◌, ◌/◌, ◌%◌, ◌&&◌, [], ◌∷◌, Option, none, some, ltb, leb, ◌==◌,
  if◌then◌else◌, Text, slt64, two_64,
}

-- the value of a hexadecimal digit of either case
hex_value : ℕ → Option ℕ
hex_value c =
    if leb b'0' c && leb c b'9'
    then some (c - 48)
    else if leb b'a' c && leb c b'f'
    then some (c - 87)
    else if leb b'A' c && leb c b'F'
    then some (c - 55)
    else none

cons_byte : Option ℕ → Option ℕ → Option Text → Option Text
cons_byte (some h) (some l) (some s) = some ((h * 16 + l) ∷ s)
cons_byte _ _ _ = none

-- `none` on an odd length or a byte that is no digit
unfoldable pub hex_decode : Text → Option Text
unfolding hex_value cons_byte
hex_decode [] = some []
hex_decode (c ∷ []) = none
hex_decode (c ∷ d ∷ s) = cons_byte (hex_value c) (hex_value d) (hex_decode s)

hex_digit : ℕ → ℕ
hex_digit n = if ltb n 10 then n + 48 else n + 87

unfoldable pub hex_encode : Text → Text
unfolding hex_digit
hex_encode [] = []
hex_encode (b ∷ s) = hex_digit (b / 16) ∷ hex_digit (b % 16) ∷ hex_encode s

base64_digit : ℕ → ℕ
base64_digit n =
    if ltb n 26
    then n + 65
    else if ltb n 52
    then n + 71
    else if ltb n 62
    then n - 4
    else if n == 62
    then 43
    else 47

unfoldable pub base64_encode : Text → Text
unfolding base64_digit
base64_encode [] = []
base64_encode (a ∷ []) = base64_digit (a / 4) ∷ base64_digit (a % 4 * 16) ∷ b'=' ∷ b'=' ∷ []
base64_encode (a ∷ b ∷ []) =
    base64_digit (a / 4)
    ∷ base64_digit (a % 4 * 16 + b / 16)
    ∷ base64_digit (b % 16 * 4)
    ∷ b'='
    ∷ []
base64_encode (a ∷ b ∷ c ∷ s) =
    base64_digit (a / 4)
    ∷ base64_digit (a % 4 * 16 + b / 16)
    ∷ base64_digit (b % 16 * 4 + c / 64)
    ∷ base64_digit (c % 64)
    ∷ base64_encode s

-- The decimal digits of a number below 10 ^ fuel, in front of `out`.
digits : ℕ → ℕ → Text → Text
digits zero n out = out
digits (suc fuel) n out =
    let rest = digits fuel (n / 10) ((n % 10 + 48) ∷ out) in
    if ltb n 10 then (n + 48) ∷ out else rest

-- `%d` of an `int64`, whose magnitude has at most 19 digits
unfoldable pub format_int64 : ℕ → Text
unfolding digits
format_int64 n = if slt64 n 0 then b'-' ∷ digits 20 (two_64 - n) [] else digits 20 n []

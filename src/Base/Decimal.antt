-- ===== src/Base/Decimal.antt =====
-- What the program uses of the package `strconv`: signed 64-bit integers, printed and read in
-- decimal. The round trip is in the module below.
pub mod RoundTrip
use atlas_bridge.Base.{
  ℕ, zero, suc, ◌+◌, ◌-◌, ◌*◌, ◌/◌, ◌%◌, ◌^◌, ◌≤◌, ◌<◌, ◌≡◌, refl, Bool, true, false, ◌&&◌, [], ◌∷◌,
  arith, ltb, leb, ◌==◌, if◌then◌else◌, Option, none, some,
}
use atlas_bridge.Base.Text.{Bytes, codes}

-- `negsuc n` is -(n + 1).
pub data ℤ : Type 0 where
  pos : ℕ → ℤ
  negsuc : ℕ → ℤ

abbrev pub int64_limit : ℕ
int64_limit = 2 ^ 63

abbrev pub max_int64 : ℕ
max_int64 = 2 ^ 63 - 1

-- The values of an int64.
abbrev pub IsInt64 : ℤ → Type 0
IsInt64 (pos n) = n < int64_limit
IsInt64 (negsuc n) = n < int64_limit

-- Each round takes one digit off `n`; `n` rounds are enough for `n`.
unfoldable pub emit_digits : ℕ → ℕ → Bytes → Bytes
emit_digits zero n out = out
emit_digits (suc f) n out =
    let rest = emit_digits f (n / 10) ((b'0' + n % 10) ∷ out) in if n == 0 then out else rest

-- strconv.Itoa of a length, the digits of FormatInt
unfoldable pub format_nat : ℕ → Bytes
unfolding emit_digits
format_nat n = if n == 0 then b'0' ∷ [] else emit_digits n n []

-- strconv.FormatInt(x, 10)
unfoldable pub format_int : ℤ → Bytes
unfolding format_nat
format_int (pos n) = format_nat n
format_int (negsuc n) = b'-' ∷ format_nat (suc n)

abbrev pub is_digit : ℕ → Bool
is_digit c = leb b'0' c && leb c b'9'

-- The number that digits spell behind `n`, or nothing at a byte that is no digit.
unfoldable pub scan : Bytes → ℕ → Option ℕ
scan [] n = some n
scan (c ∷ s) n = if is_digit c then scan s (n * 10 + (c - b'0')) else none

unfoldable pub parse_nat : Bytes → Option ℕ
unfolding scan
parse_nat [] = none
parse_nat (c ∷ s) = scan (c ∷ s) 0

abbrev pub in_positive : Option ℕ → Option ℤ
in_positive none = none
in_positive (some n) = if ltb n int64_limit then some (pos n) else none

abbrev pub in_negative : Option ℕ → Option ℤ
in_negative none = none
in_negative (some zero) = some (pos 0)
in_negative (some (suc n)) = if ltb n int64_limit then some (negsuc n) else none

-- strconv.ParseInt(s, 10, 64), and strconv.Atoi where an int has 64 bits: an optional sign, one or
-- more digits, and the range of an int64. `none` is an error.
unfoldable pub parse_int : Bytes → Option ℤ
unfolding parse_nat
parse_int [] = none
parse_int (c ∷ s) =
    if c == b'-'
    then in_negative (parse_nat s)
    else if c == b'+'
    then in_positive (parse_nat s)
    else in_positive (parse_nat (c ∷ s))

-- ===== src/Torrent/Bencode/Strings.antt =====
-- metainfo.go, readUntil and the two leaf cases of readValue on what `encode` prints.
use atlas_bridge.Base.{
  ℕ, suc, ◌+◌, ◌≤◌, ◌<◌, ◌≡◌, refl, false, [], ◌∷◌, ◌++◌, arith, append_assoc, append-nil, ◌==◌,
  length, length-append, ◌∙◌, some, ok, All, ap, take-length_append, drop-length_append,
}
use atlas_bridge.Base.Text.{Bytes}
use atlas_bridge.Base.Decimal.{ℤ, pos, negsuc, IsInt64, format_nat, format_int, parse_int}
use atlas_bridge.Base.Decimal.RoundTrip.{
  IsDigit, format_nat-IsDigit, format_nat-cons, length-format_nat, parse_int-format_nat,
  parse_int-format_int,
}
use atlas_bridge.Torrent.Bencode.{
  str, int, read_until, read_full, as_integer, read_integer, as_string, read_string, encode_string,
  max_token, max_string,
}

pub read_until_lem :
    (delim : ℕ) (out s rest : Bytes)
    → All (λ c. (c == delim) ≡ false) s
    → length out + length s ≤ max_token
    → read_until delim out (s ++ delim ∷ rest) ≡ ok (out ++ s, rest)
unfolding read_until
read_until_lem delim out [] rest h fits = ground (arith, append-nil out)
read_until_lem delim out (c ∷ s) rest (hc, hs) fits = ground (
  arith,
  length-append out (c ∷ []),
  append_assoc out (c ∷ []) s,
  read_until_lem delim (out ++ c ∷ []) s rest hs (omega (arith, length-append out (c ∷ []))),
)

digits_avoid :
    (delim : ℕ) (s : Bytes) → b'9' < delim → All IsDigit s → All (λ c. (c == delim) ≡ false) s
digits_avoid delim [] lt h = tt
digits_avoid delim (c ∷ s) lt (hc, hs) = (ground arith, digits_avoid delim s lt hs)

format_int_avoids : (i : ℤ) → All (λ c. (c == b'e') ≡ false) (format_int i)
unfolding format_int
format_int_avoids (pos n) = digits_avoid b'e' (format_nat n) (omega arith) (format_nat-IsDigit n)
format_int_avoids (negsuc n) =
    (refl, digits_avoid b'e' (format_nat (suc n)) (omega arith) (format_nat-IsDigit (suc n)))

length-format_int : (i : ℤ) → IsInt64 i → length (format_int i) ≤ 21
unfolding format_int
length-format_int (pos n) h = omega (arith, length-format_nat n (omega arith))
length-format_int (negsuc n) h = omega (arith, length-format_nat (suc n) (omega arith))

pub read_integer-format_int :
    (i : ℤ) (rest : Bytes)
    → IsInt64 i
    → read_integer (format_int i ++ b'e' ∷ rest) ≡ ok (int i, rest)
unfolding read_integer as_integer
read_integer-format_int i rest h = rw (
  read_until_lem b'e' [] (format_int i) rest (format_int_avoids i)
      (omega (arith, length-format_int i h)),
  parse_int-format_int i h,
)

read_string_sized :
    (d : ℕ) (t s rest : Bytes)
    → parse_int (d ∷ t) ≡ some (pos (length s))
    → All (λ c. (c == b':') ≡ false) t
    → length t ≤ max_token
    → length s ≤ max_string
    → read_string d (t ++ b':' ∷ (s ++ rest)) ≡ ok (str s, rest)
unfolding read_string as_string read_full
read_string_sized d t s rest number avoid short fits =
    rw (read_until_lem b':' [] t (s ++ rest) avoid (omega arith), number)
      (ground (arith, length-append s rest, take-length_append s rest, drop-length_append s rest))

encode_string-append :
    (s rest : Bytes) → encode_string s ++ rest ≡ format_nat (length s) ++ b':' ∷ (s ++ rest)
unfolding encode_string
encode_string-append s rest = append_assoc (format_nat (length s)) (b':' ∷ s) rest

-- A string's print is a digit, which starts no other value, and more.
pub read_string-encode_string :
    (s rest : Bytes)
    → length s ≤ max_string
    → (d : ℕ) × (t : Bytes) × IsDigit d
      × (encode_string s ++ rest ≡ d ∷ t)
      × (read_string d t ≡ ok (str s, rest))
read_string-encode_string s rest h =
    let (d, t, p, q) = format_nat-cons (length s) in
    let avoid : All (λ c. (c == b':') ≡ false) (d ∷ t) =
      rw p at
        (digits_avoid b':' (format_nat (length s)) (omega arith) (format_nat-IsDigit (length s))) in
    let short : length (d ∷ t) ≤ 20 = rw p at (length-format_nat (length s) (omega arith)) in
    let number : parse_int (d ∷ t) ≡ some (pos (length s)) =
      rw p at (parse_int-format_nat (length s) (omega arith)) in
    (
      d,
      t ++ b':' ∷ (s ++ rest),
      q,
      encode_string-append s rest ∙ ap (λ u. u ++ b':' ∷ (s ++ rest)) p,
      read_string_sized d t s rest number avoid.1 (omega arith) h,
    )

-- ===== src/Base/Decimal/RoundTrip.antt =====
-- Every int64 is read back from its decimal print, and the print of a number is digits.
use atlas_bridge.Base.{
  ℕ, zero, suc, ◌+◌, ◌*◌, ◌^◌, ◌/◌, ◌%◌, ◌≤◌, ◌<◌, ◌≡◌, refl, [], ◌∷◌, arith, ◌==◌, Option, none,
  some, All, length, Bool-cases, inl, inr,
}
use atlas_bridge.Base.Text.{Bytes}
use atlas_bridge.Base.Decimal.{
  ℤ, pos, negsuc, int64_limit, IsInt64, emit_digits, format_nat, format_int, scan, parse_nat,
  parse_int, in_positive, in_negative,
}

abbrev pub IsDigit : ℕ → Type 0
IsDigit c = (b'0' ≤ c) × (c ≤ b'9')

scan_last : (n : ℕ) (out : Bytes) → scan ((b'0' + n % 10) ∷ out) (n / 10) ≡ scan out n
unfolding scan
scan_last n out = ground arith

scan-emit_digits : (f n : ℕ) (out : Bytes) → n ≤ f → scan (emit_digits f n out) 0 ≡ scan out n
unfolding emit_digits
scan-emit_digits zero n out h = ground arith
scan-emit_digits (suc f) n out h =
    ground (arith, scan_last n out, scan-emit_digits f (n / 10) ((b'0' + n % 10) ∷ out))

pub emit_digits-IsDigit :
    (f n : ℕ) (out : Bytes) → All IsDigit out → All IsDigit (emit_digits f n out)
unfolding emit_digits
emit_digits-IsDigit zero n out h = h
emit_digits-IsDigit (suc f) n out h =
    ground (
      arith,
      emit_digits-IsDigit f (n / 10) ((b'0' + n % 10) ∷ out) ((omega arith, omega arith), h),
    )

pub format_nat-IsDigit : (n : ℕ) → All IsDigit (format_nat n)
unfolding format_nat
format_nat-IsDigit n = elim (Bool-cases (n == 0)) [
  | inl e ↦ rw e (omega arith)
  | inr e ↦ rw e (emit_digits-IsDigit n n [] tt)
]

cons_of_emit_digits :
    (f n c : ℕ) (out : Bytes)
    → IsDigit c
    → (d : ℕ) × (s : Bytes) × (emit_digits f n (c ∷ out) ≡ d ∷ s) × IsDigit d
unfolding emit_digits
cons_of_emit_digits zero n c out h = (c, out, refl, h)
cons_of_emit_digits (suc f) n c out h = elim (Bool-cases (n == 0)) [
  | inl e ↦ (c, out, rw e, h)
  | inr e ↦
      let (d, s, p, q) = cons_of_emit_digits f (n / 10) (b'0' + n % 10) (c ∷ out) (omega arith) in
      (d, s, rw e p, q)
]

-- The print of a number is a digit and more.
pub format_nat-cons : (n : ℕ) → (d : ℕ) × (s : Bytes) × (format_nat n ≡ d ∷ s) × IsDigit d
unfolding format_nat emit_digits
format_nat-cons zero = (b'0', [], refl, omega arith)
format_nat-cons (suc n) =
    let (d, s, p, q) = cons_of_emit_digits n (suc n / 10) (b'0' + suc n % 10) [] (omega arith) in
    (d, s, ground (arith, p), q)

scan-format_nat : (n : ℕ) → scan (format_nat n) 0 ≡ some n
unfolding format_nat scan
scan-format_nat n = ground (arith, scan-emit_digits n n [])

pub parse_nat-format_nat : (n : ℕ) → parse_nat (format_nat n) ≡ some n
unfolding parse_nat
parse_nat-format_nat n =
    let (d, s, p, q) = format_nat-cons n in
    let e : parse_nat (d ∷ s) ≡ some n = rw p at (scan-format_nat n) in rw p e

pub parse_int-format_nat : (n : ℕ) → n < int64_limit → parse_int (format_nat n) ≡ some (pos n)
unfolding parse_int
parse_int-format_nat n h =
    let (d, s, p, q) = format_nat-cons n in
    let e : parse_nat (d ∷ s) ≡ some n = rw p at (parse_nat-format_nat n) in
    rw p (ground (arith, e))

-- Every int64 is read back from its print.
pub parse_int-format_int : (i : ℤ) → IsInt64 i → parse_int (format_int i) ≡ some i
unfolding format_int
parse_int-format_int (pos n) h = parse_int-format_nat n h
parse_int-format_int (negsuc n) h =
    unfold parse_int in rw (parse_nat-format_nat (suc n)) (ground arith)

-- What is read is in the range of an int64.
pub parse_int-IsInt64 : (s : Bytes) {i : ℤ} → parse_int s ≡ some i → IsInt64 i
unfolding parse_int
parse_int-IsInt64 [] h = cc
parse_int-IsInt64 (c ∷ s) {i} h = elim (Bool-cases (c == b'-')) [
  | inl e ↦ from_negative (parse_nat s) (rw e at h)
  | inr e ↦ elim (Bool-cases (c == b'+')) [
    | inl e' ↦ from_positive (parse_nat s) (rw (e, e') at h)
    | inr e' ↦ from_positive (parse_nat (c ∷ s)) (rw (e, e') at h)
  ]
]
  where
    from_positive : (o : Option ℕ) → in_positive o ≡ some i → IsInt64 i
    from_positive none p = cc
    from_positive (some n) p = ground arith

    from_negative : (o : Option ℕ) → in_negative o ≡ some i → IsInt64 i
    from_negative none p = cc
    from_negative (some zero) p = ground arith
    from_negative (some (suc n)) p = ground arith

abbrev pow10 : ℕ → ℕ
pow10 zero = 1
pow10 (suc k) = 10 * pow10 k

length-emit_digits :
    (k f n : ℕ) (out : Bytes) → n < pow10 k → length (emit_digits f n out) ≤ k + length out
unfolding emit_digits
length-emit_digits k zero n out h = omega arith
length-emit_digits zero (suc f) n out h = ground arith
length-emit_digits (suc k) (suc f) n out h =
    ground (arith, length-emit_digits k f (n / 10) ((b'0' + n % 10) ∷ out))

-- A number below 10 ^ 20 has at most twenty digits.
pub length-format_nat : (n : ℕ) → n < 10 ^ 20 → length (format_nat n) ≤ 20
unfolding format_nat
length-format_nat n h = ground (arith, length-emit_digits 20 n n [] h)

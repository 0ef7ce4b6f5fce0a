-- ===== src/Base/Number/Decimal.antt =====
-- What strtoull reads from a printed number.
use Prim.Native.Nat.{ℕ, zero, suc, ◌+◌, ◌/◌, ◌%◌, ◌≤◌, ◌<◌}
use mathlib.Core.Path.{◌≡◌, refl, ◌∙◌}
use mathlib.Core.Bool.{true, false}
use mathlib.Core.List.{[], ◌∷◌, ◌++◌}
use native.Mathlib.Omega.{arith}
use minicontainer.Base.Strings.{Bytes}
use minicontainer.Base.Number.{
  digits_of, decimal, scan_digits, strtoull, starts_digit, saturate, u64_max,
}

scan_digits-digits_of :
    (fuel n : ℕ) (out : Bytes) → n < fuel → scan_digits 0 (digits_of fuel n out) ≡ scan_digits n out
unfolding digits_of
scan_digits-digits_of zero n out h = absurd (omega arith)
scan_digits-digits_of (suc fuel) n out h =
    ground (arith, scan_digits-digits_of fuel (n / 10) ((b'0' + n % 10) ∷ out))

starts_digit-digits_of :
    (fuel n : ℕ) (out : Bytes) → n < fuel → starts_digit (digits_of fuel n out) ≡ true
unfolding digits_of
starts_digit-digits_of zero n out h = absurd (omega arith)
starts_digit-digits_of (suc fuel) n out h =
    ground (arith, starts_digit-digits_of fuel (n / 10) ((b'0' + n % 10) ∷ out))

digits_of-append :
    (fuel n : ℕ) (out rest : Bytes) → digits_of fuel n out ++ rest ≡ digits_of fuel n (out ++ rest)
unfolding digits_of
digits_of-append zero n out rest = refl
digits_of-append (suc fuel) n out rest =
    ground (arith, digits_of-append fuel (n / 10) ((b'0' + n % 10) ∷ out) rest)

-- A text that begins with a digit has neither blanks nor a sign to skip.
pub strtoull-starts_digit :
    (s : Bytes) → starts_digit s ≡ true → strtoull s ≡ saturate false (scan_digits 0 s)
unfolding strtoull
strtoull-starts_digit [] h = cc
strtoull-starts_digit (c ∷ s) h = ground arith

scan_digits_stop :
    (n : ℕ) (rest : Bytes) → starts_digit rest ≡ false → scan_digits n rest ≡ (n, rest)
scan_digits_stop n [] h = refl
scan_digits_stop n (c ∷ s) h = ground arith

-- A number that fits 64 bits is read back from its print, up to what follows it.
pub strtoull-decimal :
    (n : ℕ) (rest : Bytes)
    → n ≤ u64_max
    → starts_digit rest ≡ false
    → strtoull (decimal n ++ rest) ≡ record { value = n; rest = rest; moved = true; range = false }
unfolding decimal
strtoull-decimal n rest fits stop = rw (digits_of-append (suc n) n [] rest) (
    strtoull-starts_digit _ (starts_digit-digits_of (suc n) n rest (omega arith))
    ∙ rw (scan_digits-digits_of (suc n) n rest (omega arith), scan_digits_stop n rest stop)
        (ground arith))

pub starts_digit-decimal : (n : ℕ) (rest : Bytes) → starts_digit (decimal n ++ rest) ≡ true
unfolding decimal
starts_digit-decimal n rest =
    rw (digits_of-append (suc n) n [] rest) (starts_digit-digits_of (suc n) n rest (omega arith))

pub scan_digits-decimal : (n : ℕ) → scan_digits 0 (decimal n) ≡ (n, [])
unfolding decimal
scan_digits-decimal n = scan_digits-digits_of (suc n) n [] (omega arith)

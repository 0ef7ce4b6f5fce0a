-- ===== src/Resource/Sizes.antt =====
-- Counts and byte sizes.
use minicontainer.Base.{
  ℕ, ◌-◌, ◌*◌, ◌^◌, ◌≤◌, ◌<◌, ◌≡◌, ◌≢◌, ◌⊎◌, inl, inr, refl, sym, ◌∙◌, true, false, ◌||◌, none,
  some, [], ◌∷◌, ◌++◌, map, arith, Bytes, ◌==◌, leb, ltb, if◌then◌else◌, ◌>>=◌, to_lower,
  append-nil, >>=-eq-some,
}
use minicontainer.Base.Number.{Parsed, strtoull, decimal, u64_max, starts_digit}
use minicontainer.Base.Number.Decimal.{strtoull-decimal, starts_digit-decimal, scan_digits-decimal}
use minicontainer.Resource.{accept_positive}
use minicontainer.Base.Number.{Parsed}
use minicontainer.Resource.{
  starts_minus, is_nil, parse_positive_u64, parse_bytes, scale_bytes, suffix_multiplier, multiplier,
  accept_bytes,
}

abbrev pub IsUnit : ℕ → Type 0
IsUnit m = (m ≡ 1) ⊎ (m ≡ 2 ^ 10) ⊎ (m ≡ 2 ^ 20) ⊎ (m ≡ 2 ^ 30)

-- The unit that a suffix stands for, in any mix of cases.
multiplier-cases : (s : Bytes) {m : ℕ} → multiplier s ≡ some m → IsUnit m
multiplier-cases s h = ground arith

scale_bytes_at :
    (n m : ℕ) → IsUnit m → scale_bytes n m ≡ (if leb (n * m) u64_max then some (n * m) else none)
unfolding scale_bytes
scale_bytes_at n m (inl e) = rw e (ground arith)
scale_bytes_at n m (inr (inl e)) = rw e (ground arith)
scale_bytes_at n m (inr (inr (inl e))) = rw e (ground arith)
scale_bytes_at n m (inr (inr (inr e))) = rw e (ground arith)

suffix_multiplier-cases : (s : Bytes) {m : ℕ} → suffix_multiplier s ≡ some m → IsUnit m
unfolding suffix_multiplier
suffix_multiplier-cases s h = multiplier-cases (map to_lower s) (long s h)
  where
    long : (s : Bytes) {m : ℕ} → suffix_multiplier s ≡ some m → multiplier (map to_lower s) ≡ some m
    long s h = ground arith

digit-first :
    (n : ℕ) (s : Bytes)
    → starts_digit (decimal n ++ s) ≡ true
    → (is_nil (decimal n ++ s) ≡ false) × (starts_minus (decimal n ++ s) ≡ false)
digit-first n s h = go (decimal n ++ s) h
  where
    go : (t : Bytes) → starts_digit t ≡ true → (is_nil t ≡ false) × (starts_minus t ≡ false)
    go [] e = cc
    go (c ∷ t) e = ground arith

-- A size that is printed in decimal, with a suffix: the result is exactly the number times the
-- unit where that product is not 0 and fits 64 bits, and the size is refused otherwise.
pub parse_bytes-decimal :
    (number m : ℕ) (suffix : Bytes)
    → number ≤ u64_max
    → starts_digit suffix ≡ false
    → suffix_multiplier suffix ≡ some m
    → parse_bytes (decimal number ++ suffix)
      ≡ (if number == 0 then none else if leb (number * m) u64_max then some (number * m) else none)
unfolding parse_bytes
parse_bytes-decimal number m suffix fits stop unit =
    let (first, sign) = digit-first number suffix (starts_digit-decimal number suffix) in
    rw (strtoull-decimal number suffix fits stop, first, sign, unit)
      (ground (arith, scale_bytes_at number m (suffix_multiplier-cases suffix unit)))

scale_bytes-exact :
    (n m b : ℕ)
    → n ≢ 0
    → IsUnit m
    → scale_bytes n m ≡ some b
    → (b ≡ n * m) × (0 < b) × (b ≤ u64_max)
scale_bytes-exact n m b pos unit h =
    let exact : (if leb (n * m) u64_max then some (n * m) else none) ≡ some b =
      sym (scale_bytes_at n m unit) ∙ h in
    let e : b ≡ n * m = ground arith in (e, ground (arith, e), ground arith)

accept_bytes-some :
    (p : Parsed) {b : ℕ}
    → accept_bytes p ≡ some b
    → (p.value ≢ 0) × ((suffix_multiplier p.rest >>= λ m. scale_bytes p.value m) ≡ some b)
accept_bytes-some p h = ground arith

accept_bytes-exact :
    (p : Parsed) {bytes : ℕ}
    → accept_bytes p ≡ some bytes
    → (m : ℕ) × IsUnit m × (bytes ≡ p.value * m) × (0 < bytes) × (bytes ≤ u64_max)
accept_bytes-exact p {bytes} h =
    let (positive, chain) = accept_bytes-some p h in
    let (m, unit, scaled) =
      >>=-eq-some (suffix_multiplier p.rest) (λ m. scale_bytes p.value m) {b = bytes} chain in
    let cases = suffix_multiplier-cases p.rest {m = m} unit in
    let (e, pos, fits) = scale_bytes-exact p.value m bytes positive cases scaled in
    (m, cases, e, pos, fits)

-- An accepted size is the exact product, not 0 and within 64 bits, of the number that is read and
-- a unit of 1, 2^10, 2^20 or 2^30.
pub parse_bytes-exact :
    (value : Bytes) {bytes : ℕ}
    → parse_bytes value ≡ some bytes
    → (m : ℕ) × IsUnit m × (bytes ≡ (strtoull value).value * m) × (0 < bytes) × (bytes ≤ u64_max)
unfolding parse_bytes
parse_bytes-exact value h = accept_bytes-exact (strtoull value) (ground arith)

-- A printed count is read back where it is positive and within the maximum, and refused otherwise.
pub parse_positive_u64-decimal :
    (n maximum : ℕ)
    → n ≤ u64_max
    → parse_positive_u64 (decimal n) maximum ≡ (if n == 0 || ltb maximum n then none else some n)
unfolding parse_positive_u64
parse_positive_u64-decimal n maximum fits = rw (← append-nil (decimal n)) (
    let (first, sign) = digit-first n [] (starts_digit-decimal n []) in
    rw (strtoull-decimal n [] fits refl, first, sign) (ground arith))

-- The test for a minus sign looks at the first byte alone, and strtoull skips blanks: behind a
-- blank a negative count is accepted as its complement in 64 bits.
pub parse_positive_u64-blank_minus :
    (n : ℕ)
    → 0 < n
    → n ≤ u64_max
    → parse_positive_u64 (b' ' ∷ b'-' ∷ decimal n) u64_max ≡ some (2 ^ 64 - n)
unfolding parse_positive_u64 strtoull
parse_positive_u64-blank_minus n pos fits =
    let first : starts_digit (decimal n) ≡ true = rw append-nil at (starts_digit-decimal n []) in
    rw (first, scan_digits-decimal n) (ground arith)

accept_positive_bounds :
    (maximum : ℕ) (p : Parsed) {n : ℕ}
    → accept_positive maximum p ≡ some n
    → (0 < n) × (n ≤ maximum)
accept_positive_bounds maximum p {n} h = ground arith

-- An accepted count is positive and within the maximum.
pub parse_positive_u64_bounds :
    (value : Bytes) (maximum : ℕ) {n : ℕ}
    → parse_positive_u64 value maximum ≡ some n
    → (0 < n) × (n ≤ maximum)
unfolding parse_positive_u64
parse_positive_u64_bounds value maximum {n} h =
    accept_positive_bounds maximum (strtoull value) {n = n} (ground arith)

-- ===== src/Resource/Quota.antt =====
-- CPU quotas: the loop never wraps around, and what is accepted is what the shim accepts.
use minicontainer.Base.{
  ℕ, ◌+◌, ◌*◌, ◌/◌, ◌≤◌, ◌<◌, ◌≡◌, ◌⊎◌, inl, refl, ◌∙◌, some, [], ◌∷◌, arith, Bytes, >>=-eq-some,
  break_at, true, false, ◌-◌, ◌^◌, suc, ◌≢◌, sym, ap, Bool, Option, none, length, ◌==◌,
  if◌then◌else◌, push_first, ==_iff, not_iff,
}
use mathlib.Core.Path.{subst}
use mathlib.Core.Option.{some-injective}
use native.Mathlib.Nat.{mul_assoc, mul_comm, pow-suc}
use minicontainer.Base.Number.{decimal}
use minicontainer.Resource.{
  Scan, start, scan_step, scan_cpus, finish, parse_cpu_quota, parse_positive_u64,
}
use minicontainer.Resource.Sizes.{parse_positive_u64-decimal}

-- A power of ten, up to a million.
abbrev IsPower : ℕ → Type 0
IsPower n = (n ≡ 1) ⊎ (n ≡ 10) ⊎ (n ≡ 100) ⊎ (n ≡ 1000) ⊎ (n ≡ 10000) ⊎ (n ≡ 100000) ⊎ (n ≡ 1000000)

IsPower-le : (n : ℕ) → IsPower n → n ≤ 1000000
IsPower-le n h = ground arith

-- The state of the loop: the arithmetic has stayed far below 2^64, and the fraction is proper.
record IsInRange (s : Scan) : Type 0 where
  whole : s.whole ≤ 10249
  proper : s.fraction < s.scale
  scale : IsPower s.scale

start-IsInRange : IsInRange start
start-IsInRange = record { whole = omega arith; proper = omega arith; scale = inl refl }

scan_step-IsInRange :
    (c : ℕ) (s : Scan) {t : Scan} → IsInRange s → scan_step c s ≡ some t → IsInRange t
unfolding scan_step
scan_step-IsInRange c s v h = ground arith

scan_cpus-IsInRange :
    (value : Bytes) (s : Scan) {t : Scan} → IsInRange s → scan_cpus value s ≡ some t → IsInRange t
unfolding scan_cpus
scan_cpus-IsInRange [] s {t} v h = subst IsInRange (some-injective s t h) v
scan_cpus-IsInRange (c ∷ value) s {t} v h =
    let (u, first, later) = >>=-eq-some (scan_step c s) (scan_cpus value) {b = t} h in
    scan_cpus-IsInRange value u {t = t} (scan_step-IsInRange c s {t = u} v first) later

finish_bounds : (s : Scan) {q : ℕ} → finish s ≡ some q → (0 < q) × (q ≤ 102400000)
unfolding finish
finish_bounds s h = ground arith

-- An accepted CPU count gives a quota of 1 to 102400000 microseconds in each period of 100000, so
-- at most 1024 CPUs.
pub parse_cpu_quota_bounds :
    (value : Bytes) {q : ℕ} → parse_cpu_quota value ≡ some q → (0 < q) × (q ≤ 102400000)
unfolding parse_cpu_quota
parse_cpu_quota_bounds [] h = cc
parse_cpu_quota_bounds (c ∷ value) {q} h =
    let (s, scanned, finished) = >>=-eq-some (scan_cpus (c ∷ value) start) finish {b = q} h in
    finish_bounds s finished

-- The number that a text of digits spells in base ten, behind the digits of `acc`.
abbrev pub number : Bytes → ℕ → ℕ
number [] acc = acc
number (c ∷ text) acc = number text (acc * 10 + (c - b'0'))

abbrev pub behind : Option Bytes → Bytes
behind none = []
behind (some text) = text

-- The text in front of the first '.', and the text behind it, which may be empty.
abbrev pub whole_part : Bytes → Bytes
whole_part value = (break_at b'.' value).0

abbrev pub fraction_part : Bytes → Bytes
fraction_part value = behind (break_at b'.' value).1

-- The quota of the number of CPUs that the text spells: its millionths, rounded down, times 100000 by
-- 1000000, rounded down; nothing is reduced modulo 2^64.
abbrev pub exact_quota : Bytes → ℕ
exact_quota value =
    (number (whole_part value) 0 * 1000000
      + number (fraction_part value) 0 * 1000000 / 10 ^ length (fraction_part value))
    / 10

fraction_lt :
    (fraction scale : ℕ) → fraction < scale → scale ≤ 1000000 → fraction * 1000000 / scale < 1000000
fraction_lt fraction scale h k = grind arith

finish-exact :
    (s : Scan) {q : ℕ}
    → IsInRange s
    → finish s ≡ some q
    → q ≡ (s.whole * 1000000 + s.fraction * 1000000 / s.scale) / 10
unfolding finish
finish-exact s {q} v h =
    ground (arith, fraction_lt s.fraction s.scale v.proper (IsPower-le s.scale v.scale))

same_quota :
    {w w' f f' k k' : ℕ}
    → w ≡ w'
    → f ≡ f'
    → k ≡ k'
    → (w * 1000000 + f * 1000000 / k) / 10 ≡ (w' * 1000000 + f' * 1000000 / k') / 10
same_quota p q r = cc

-- What the loop adds behind the '.', and in front of it.
record IsFraction (text : Bytes) (s t : Scan) : Type 0 where
  whole : t.whole ≡ s.whole
  fraction : t.fraction ≡ number text s.fraction
  scale : t.scale ≡ s.scale * 10 ^ length text

record IsRead (parts : Bytes × Option Bytes) (s t : Scan) : Type 0 where
  whole : t.whole ≡ number parts.0 s.whole
  fraction : t.fraction ≡ number (behind parts.1) s.fraction
  scale : t.scale ≡ s.scale * 10 ^ length (behind parts.1)

scale_step :
    (scale : ℕ) (text : Bytes) → scale * 10 * 10 ^ length text ≡ scale * 10 ^ suc (length text)
scale_step scale text =
    mul_assoc scale 10 (10 ^ length text)
    ∙ ap (λ n. scale * n) (mul_comm 10 (10 ^ length text) ∙ sym (pow-suc 10 (length text)))

fraction_digit :
    (c : ℕ) (s : Scan) {u : Scan}
    → IsInRange s
    → s.seen_dot ≡ true
    → scan_step c s ≡ some u
    → (u.seen_dot ≡ true)
      × (u.whole ≡ s.whole)
      × (u.fraction ≡ s.fraction * 10 + (c - b'0'))
      × (u.scale ≡ s.scale * 10)
unfolding scan_step
fraction_digit c s v d h = ground arith

scan_cpus-IsFraction :
    (text : Bytes) (s : Scan) {t : Scan}
    → IsInRange s
    → s.seen_dot ≡ true
    → scan_cpus text s ≡ some t
    → IsFraction text s t
unfolding scan_cpus
scan_cpus-IsFraction [] s {t} v d h =
    let e = some-injective s t h in record { whole = cc; fraction = cc; scale = ground arith }
scan_cpus-IsFraction (c ∷ text) s {t} v d h =
    let (u, first, later) = >>=-eq-some (scan_step c s) (scan_cpus text) {b = t} h in
    let (dot, whole, fraction, scale) = fraction_digit c s {u = u} v d first in
    let rest =
      scan_cpus-IsFraction text u {t = t} (scan_step-IsInRange c s {t = u} v first) dot later in
    record {
      whole = rest.whole ∙ whole;
      fraction = rest.fraction ∙ ap (number text) fraction;
      scale = rest.scale ∙ (ap (λ n. n * 10 ^ length text) scale ∙ scale_step s.scale text);
    }

whole_digit :
    (c : ℕ) (s : Scan) {u : Scan}
    → IsInRange s
    → s.seen_dot ≡ false
    → c ≢ b'.'
    → scan_step c s ≡ some u
    → (u.seen_dot ≡ false)
      × (u.whole ≡ s.whole * 10 + (c - b'0'))
      × (u.fraction ≡ s.fraction)
      × (u.scale ≡ s.scale)
unfolding scan_step
whole_digit c s v d ne h = ground arith

dot_step :
    (s : Scan) {u : Scan}
    → s.seen_dot ≡ false
    → scan_step b'.' s ≡ some u
    → (u.seen_dot ≡ true) × (u.whole ≡ s.whole) × (u.fraction ≡ s.fraction) × (u.scale ≡ s.scale)
unfolding scan_step
dot_step s d h = ground arith

scan_cpus-IsRead :
    (value : Bytes) (s : Scan) {t : Scan}
    → IsInRange s
    → s.seen_dot ≡ false
    → scan_cpus value s ≡ some t
    → IsRead (break_at b'.' value) s t
unfolding scan_cpus
scan_cpus-IsRead [] s {t} v d h =
    let e = some-injective s t h in
    record {
      whole = ap (λ r. r.whole) (sym e);
      fraction = ap (λ r. r.fraction) (sym e);
      scale = ap (λ r. r.scale) (sym e) ∙ omega arith;
    }
scan_cpus-IsRead (c ∷ value) s {t} v d h =
    let (u, first, later) = >>=-eq-some (scan_step c s) (scan_cpus value) {b = t} h in
    let v' = scan_step-IsInRange c s {t = u} v first in
    go (λ w wv wd wh. scan_cpus-IsRead value w {t = t} wv wd wh) (c == b'.') refl u v' first later
  where
    Again : Type 0
    Again =
        (w : Scan)
        → IsInRange w
        → w.seen_dot ≡ false
        → scan_cpus value w ≡ some t
        → IsRead (break_at b'.' value) w t

    digit :
        Again
        → (u : Scan) → IsInRange u
        → c ≢ b'.'
        → scan_step c s ≡ some u
        → scan_cpus value u ≡ some t
        → IsRead (push_first c (break_at b'.' value)) s t
    digit again u v' ne first later =
        let (dot, whole, fraction, scale) = whole_digit c s {u = u} v d ne first in
        let rest = again u v' dot later in
        let text = behind (break_at b'.' value).1 in
        record {
          whole = rest.whole ∙ ap (number (break_at b'.' value).0) whole;
          fraction = rest.fraction ∙ ap (number text) fraction;
          scale = rest.scale ∙ ap (λ n. n * 10 ^ length text) scale;
        }

    dot :
        (u : Scan)
        → IsInRange u
        → scan_step b'.' s ≡ some u
        → scan_cpus value u ≡ some t
        → IsRead ([], some value) s t
    dot u v' first later =
        let (seen, whole, fraction, scale) = dot_step s {u = u} d first in
        let rest = scan_cpus-IsFraction value u {t = t} v' seen later in
        record {
          whole = rest.whole ∙ whole;
          fraction = rest.fraction ∙ ap (number value) fraction;
          scale = rest.scale ∙ ap (λ n. n * 10 ^ length value) scale;
        }

    go :
        Again
        → (b : Bool) → (c == b'.') ≡ b
        → (u : Scan) → IsInRange u
        → scan_step c s ≡ some u
        → scan_cpus value u ≡ some t
        → IsRead (if b then ([], some value) else push_first c (break_at b'.' value)) s t
    go again true e u v' first later =
        dot u v' (subst (λ k. scan_step k s ≡ some u) ((==_iff c b'.').0 e) first) later
    go again false e u v' first later =
        digit again u v' ((not_iff _ (==_iff c b'.')).0 e) first later

-- An accepted count has exactly the quota of the decimal number that its text spells, the digits in
-- front of the '.' and those behind it read without a bound: no product and no sum of the parser wraps
-- around.
pub parse_cpu_quota-exact :
    (value : Bytes) {q : ℕ} → parse_cpu_quota value ≡ some q → q ≡ exact_quota value
unfolding parse_cpu_quota
parse_cpu_quota-exact [] h = cc
parse_cpu_quota-exact (c ∷ value) {q} h =
    let (s, scanned, finished) = >>=-eq-some (scan_cpus (c ∷ value) start) finish {b = q} h in
    let exact = scan_cpus-IsRead (c ∷ value) start {t = s} start-IsInRange refl scanned in
    finish-exact s {q = q} (scan_cpus-IsInRange (c ∷ value) start {t = s} start-IsInRange scanned)
      finished
    ∙ same_quota exact.whole exact.fraction (exact.scale ∙ omega arith)

-- Every quota that the command line accepts, printed for the shim, is accepted there unchanged.
pub parse_positive_u64-parse_cpu_quota :
    (value : Bytes) {q : ℕ}
    → parse_cpu_quota value ≡ some q
    → parse_positive_u64 (decimal q) 102400000 ≡ some q
parse_positive_u64-parse_cpu_quota value {q} h =
    let (pos, le) = parse_cpu_quota_bounds value h in
    parse_positive_u64-decimal q 102400000 (omega arith) ∙ ground arith

-- ===== src/Resource.antt =====
-- util/resource.c: counts, byte sizes and CPU quotas. The children prove what is accepted.
pub mod Sizes
pub mod Quota
use minicontainer.Base.{
  ℕ, zero, suc, ◌+◌, ◌-◌, ◌*◌, ◌/◌, ◌%◌, ◌^◌, ◌≤◌, ◌<◌, ◌≡◌, ◌≢◌, ◌↔◌, ◌⊎◌, inl, inr, refl, sym, ap,
  ◌∙◌, Bool, true, false, not, ◌&&◌, ◌||◌, Option, none, some, List, [], ◌∷◌, ◌++◌, map, arith,
  Bytes, codes, length, All, ◌==◌, leb, ltb, if◌then◌else◌, ◌>>=◌, ◌>>◌, guard, is_some, Bool-cases,
  Option-cases,
}
use minicontainer.Base.{is_digit, str_eq, to_lower}
use minicontainer.Base.Number.{Parsed, strtoull, u64_max}

abbrev pub starts_minus : Bytes → Bool
starts_minus [] = false
starts_minus (c ∷ s) = c == b'-'

abbrev pub is_nil : Bytes → Bool
is_nil [] = true
is_nil (c ∷ s) = false

abbrev pub accept_positive : ℕ → Parsed → Option ℕ
accept_positive maximum p =
    if p.range || not p.moved || not (is_nil p.rest) || p.value == 0 || ltb maximum p.value
    then none
    else some p.value

-- `*result`
unfoldable pub parse_positive_u64 : Bytes → ℕ → Option ℕ
parse_positive_u64 value maximum =
    if is_nil value || starts_minus value then none else accept_positive maximum (strtoull value)

abbrev pub is_one_of : Bytes → Bytes → Bytes → Bytes → Bool
is_one_of s a b c = str_eq s a || str_eq s b || str_eq s c

-- The multiplier of a suffix in lower case.
abbrev pub multiplier : Bytes → Option ℕ
multiplier suffix =
    if str_eq suffix [] || str_eq suffix (codes "b")
    then some 1
    else if is_one_of suffix (codes "k") (codes "ki") (codes "kib")
    then some 1024
    else if is_one_of suffix (codes "m") (codes "mi") (codes "mib")
    then some (1024 * 1024)
    else if is_one_of suffix (codes "g") (codes "gi") (codes "gib")
    then some (1024 * 1024 * 1024)
    else none

-- sizeof(suffix)
abbrev suffix_size : ℕ
suffix_size = 8

-- The test of overflow, and the product in uint64_t.
unfoldable pub scale_bytes : ℕ → ℕ → Option ℕ
scale_bytes number m = if ltb (u64_max / m) number then none else some (number * m % 2 ^ 64)

unfoldable pub suffix_multiplier : Bytes → Option ℕ
suffix_multiplier end = if leb suffix_size (length end) then none else multiplier (map to_lower end)

abbrev accept_bytes : Parsed → Option ℕ
accept_bytes p =
    if p.range || not p.moved || p.value == 0
    then none
    else (suffix_multiplier p.rest >>= λ m. scale_bytes p.value m)

-- `*bytes`
unfoldable pub parse_bytes : Bytes → Option ℕ
parse_bytes value =
    if is_nil value || starts_minus value then none else accept_bytes (strtoull value)

-- The variables of the loop over the digits of a CPU count.
pub record Scan : Type 0 where
  pub whole : ℕ
  pub fraction : ℕ
  pub scale : ℕ
  pub seen_digit : Bool
  pub seen_dot : Bool

abbrev pub start : Scan
start = record { whole = 0; fraction = 0; scale = 1; seen_digit = false; seen_dot = false }

-- One round; the arithmetic is that of uint64_t.
unfoldable pub scan_step : ℕ → Scan → Option Scan
scan_step c s =
    if c == b'.'
    then (if s.seen_dot then none else some (record s { seen_dot = true }))
    else if not (is_digit c)
    then none
    else if not s.seen_dot
    then (if ltb 1024 s.whole
        then none
        else some (record s { seen_digit = true; whole = (s.whole * 10 + (c - b'0')) % 2 ^ 64 }))
    else if ltb s.scale 1000000
    then some (record s {
      seen_digit = true;
      fraction = (s.fraction * 10 + (c - b'0')) % 2 ^ 64;
      scale = s.scale * 10 % 2 ^ 64;
    })
    else none

unfoldable pub scan_cpus : Bytes → Scan → Option Scan
scan_cpus [] s = some s
scan_cpus (c ∷ value) s = scan_step c s >>= scan_cpus value

abbrev cpu_micros : Scan → ℕ
cpu_micros s = (s.whole * 1000000 % 2 ^ 64 + s.fraction * 1000000 % 2 ^ 64 / s.scale) % 2 ^ 64

unfoldable pub finish : Scan → Option ℕ
finish s =
    if not s.seen_digit || ltb 1024 s.whole
    then none
    else let micros = cpu_micros s in
      if micros == 0 || ltb (1024 * 1000000) micros
      then none
      else let quota = micros * 100000 % 2 ^ 64 / 1000000 in
        if ltb 0 quota then some quota else none

-- `*quota`, where the call returns 1. On a quota of 0 the call stores the 0 and returns 0.
unfoldable pub parse_cpu_quota : Bytes → Option ℕ
parse_cpu_quota [] = none
parse_cpu_quota (c ∷ value) = scan_cpus (c ∷ value) start >>= finish

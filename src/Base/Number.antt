-- ===== src/Base/Number.antt =====
-- strtoul and strtoull in base 10, and the decimal print of snprintf's %u and %llu.
pub mod Decimal
use minicontainer.Base.Tests.{ltb, ◌==◌, if◌then◌else◌}
use minicontainer.Base.Strings.{Bytes, is_digit, is_space}
use Prim.Native.Nat.{zero, ℕ, ◌+◌, ◌-◌, ◌*◌, ◌%◌, ◌^◌, suc}
use mathlib.Core.Bool.{Bool, true, false}
use mathlib.Core.List.{[], ◌∷◌}
use minicontainer.Base.{◌/◌}

abbrev pub u64_mod : ℕ
u64_mod = 2 ^ 64

abbrev pub u64_max : ℕ
u64_max = 2 ^ 64 - 1

-- What a call leaves: the value, `*end`, whether `end` moved, and whether errno is ERANGE.
pub record Parsed : Type 0 where
  pub value : ℕ
  pub rest : Bytes
  pub moved : Bool
  pub range : Bool

abbrev pub skip_space : Bytes → Bytes
skip_space [] = []
skip_space (c ∷ s) = let t = skip_space s in if is_space c then t else c ∷ s

-- The digits at the front are read into n without a bound.
abbrev pub scan_digits : ℕ → Bytes → ℕ × Bytes
scan_digits n [] = (n, [])
scan_digits n (c ∷ s) =
    let more = scan_digits (n * 10 + (c - b'0')) s in if is_digit c then more else (n, c ∷ s)

abbrev pub starts_digit : Bytes → Bool
starts_digit [] = false
starts_digit (c ∷ s) = is_digit c

-- On overflow the value is ULONG_MAX; a minus sign negates in the unsigned type.
abbrev pub saturate : Bool → ℕ × Bytes → Parsed
saturate negative (n, rest) =
    if ltb u64_max n
    then record { value = u64_max; rest = rest; moved = true; range = true }
    else record {
      value = if negative then (u64_mod - n) % u64_mod else n;
      rest = rest;
      moved = true;
      range = false;
    }

abbrev pub unsigned : Bool → Bytes → Bytes → Parsed
unsigned negative whole s =
    if starts_digit s
    then saturate negative (scan_digits 0 s)
    else record { value = 0; rest = whole; moved = false; range = false }

abbrev pub after_space : Bytes → Bytes → Parsed
after_space whole [] = unsigned false whole []
after_space whole (c ∷ s) =
    if c == b'-'
    then unsigned true whole s
    else if c == b'+'
    then unsigned false whole s
    else unsigned false whole (c ∷ s)

unfoldable pub strtoull : Bytes → Parsed
strtoull s = after_space s (skip_space s)

-- The digits of n in front of `out`, on fuel; a number needs fewer rounds than its value plus one.
pub digits_of : ℕ → ℕ → Bytes → Bytes
digits_of zero n out = out
digits_of (suc fuel) n out =
    let more = digits_of fuel (n / 10) ((b'0' + n % 10) ∷ out) in
    if ltb n 10 then (b'0' + n) ∷ out else more

unfoldable pub decimal : ℕ → Bytes
unfolding digits_of
decimal n = digits_of (suc n) n []

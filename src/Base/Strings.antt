-- ===== src/Base/Strings.antt =====
-- C strings as lists of bytes without the terminator, and the functions of string.h and ctype.h
-- (in the "C" locale) that the program calls.
use Prim.Native.Nat.{ℕ, ◌+◌}
use Prim.Native.Char.{code}
use Prim.Native.String.{String}
use mathlib.Core.Path.{◌≡◌, refl}
use mathlib.Core.Logic.{◌↔◌, ◌≢◌}
use mathlib.Core.Bool.{Bool, true, false, ◌&&◌, ◌||◌}
use mathlib.Core.List.{List, [], ◌∷◌, ◌++◌}
use mathlib.Core.Option.{Option, none, some}
use native.Mathlib.Omega.{arith}
use minicontainer.Base.Tests.{leb, ◌==◌, if◌then◌else◌}
use minicontainer.Base.Lists.{All, drop, length}

abbrev pub Bytes : Type 0
Bytes = List ℕ

-- The bytes of an ASCII literal.
abbrev pub codes : String → Bytes
codes String.[] = []
codes (String.◌∷◌ c s) = code c ∷ codes s

abbrev pub is_digit : ℕ → Bool
is_digit c = leb b'0' c && leb c b'9'

abbrev pub is_lower : ℕ → Bool
is_lower c = leb b'a' c && leb c b'z'

abbrev pub is_upper : ℕ → Bool
is_upper c = leb b'A' c && leb c b'Z'

abbrev pub is_alpha : ℕ → Bool
is_alpha c = is_lower c || is_upper c

abbrev pub is_alnum : ℕ → Bool
is_alnum c = is_alpha c || is_digit c

abbrev pub is_space : ℕ → Bool
is_space c = c == 32 || (leb 9 c && leb c 13)

abbrev pub to_lower : ℕ → ℕ
to_lower c = if is_upper c then c + 32 else c

-- strcmp(s, t) == 0
abbrev pub str_eq : Bytes → Bytes → Bool
str_eq [] [] = true
str_eq [] (d ∷ t) = false
str_eq (c ∷ s) [] = false
str_eq (c ∷ s) (d ∷ t) = c == d && str_eq s t

-- strncmp(p, s, strlen(p)) == 0
abbrev pub starts_with : Bytes → Bytes → Bool
starts_with [] s = true
starts_with (c ∷ p) [] = false
starts_with (c ∷ p) (d ∷ s) = c == d && starts_with p s

-- strchr(s, c) != NULL for a byte c other than the terminator
abbrev pub has_char : ℕ → Bytes → Bool
has_char c [] = false
has_char c (d ∷ s) = d == c || has_char c s

-- The text up to the first c, and what follows it: `none` where strchr finds nothing.
abbrev pub push_first : ℕ → Bytes × Option Bytes → Bytes × Option Bytes
push_first d (a, r) = (d ∷ a, r)

abbrev pub break_at : ℕ → Bytes → Bytes × Option Bytes
break_at c [] = ([], none)
break_at c (d ∷ s) = if d == c then ([], some s) else push_first d (break_at c s)

pub str_eq_iff : (s t : Bytes) → (str_eq s t ≡ true) ↔ (s ≡ t)
str_eq_iff [] [] = (λ _. refl, λ _. refl)
str_eq_iff [] (d ∷ t) = (λ h. cc, λ h. cc)
str_eq_iff (c ∷ s) [] = (λ h. cc, λ h. cc)
str_eq_iff (c ∷ s) (d ∷ t) =
    (λ h. ground (arith, (str_eq_iff s t).0), λ h. ground (arith, (str_eq_iff s t).1))

pub str_eq_refl : (s : Bytes) → str_eq s s ≡ true
str_eq_refl s = (str_eq_iff s s).1 refl

pub starts_with-append : (p s : Bytes) → starts_with p (p ++ s) ≡ true
starts_with-append [] s = refl
starts_with-append (c ∷ p) s = ground (arith, starts_with-append p s)

-- No byte of the text is c.
abbrev pub Lacks : ℕ → Bytes → Type 0
Lacks c = All (λ d. d ≢ c)

pub has_char-false : (c : ℕ) (s : Bytes) → (has_char c s ≡ false) ↔ Lacks c s
has_char-false c [] = (λ _. tt, λ _. refl)
has_char-false c (d ∷ s) =
    (λ h. ground (arith, (has_char-false c s).0), λ h. ground (arith, (has_char-false c s).1))

pub break_at-append :
    (c : ℕ) (before after : Bytes)
    → Lacks c before
    → break_at c (before ++ (c ∷ after)) ≡ (before, some after)
break_at-append c [] after h = ground arith
break_at-append c (d ∷ before) after h = ground (arith, break_at-append c before after h.1)

pub Lacks-break_at : (c : ℕ) (s : Bytes) → Lacks c (break_at c s).0
Lacks-break_at c [] = tt
Lacks-break_at c (d ∷ s) = ground (arith, Lacks-break_at c s)

pub starts_with-drop : (p s : Bytes) → starts_with p s ≡ true → s ≡ p ++ drop (length p) s
starts_with-drop [] s h = refl
starts_with-drop (c ∷ p) [] h = cc
starts_with-drop (c ∷ p) (d ∷ s) h = ground (arith, starts_with-drop p s)

pub drop-append : (p s : Bytes) → drop (length p) (p ++ s) ≡ s
drop-append [] s = refl
drop-append (c ∷ p) s = drop-append p s

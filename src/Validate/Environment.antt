-- ===== src/Validate/Environment.antt =====
-- util/validate.c: mc_valid_environment.
use minicontainer.Base.{
  ℕ, ◌≡◌, ◌↔◌, refl, Bool, true, false, not, ◌&&◌, ◌||◌, Option, none, some, [], ◌∷◌, ◌++◌, arith,
  Bytes, All, ◌==◌, if◌then◌else◌, is_alpha, is_alnum, has_char, break_at, Lacks, has_char-false,
  push_first, all, break_at-append,
}

abbrev pub key_start : ℕ → Bool
key_start c = is_alpha c || c == b'_'

abbrev pub key_char : ℕ → Bool
key_char c = is_alnum c || c == b'_'

-- `break_at` finds the first '=': what stands before it is the key, and what follows the value.
abbrev valid_parts : Bytes × Option Bytes → Bool
valid_parts (key, none) = false
valid_parts ([], some value) = false
valid_parts (c ∷ key, some value) =
    if not (key_start c)
    then false
    else if not (all key_char key)
    then false
    else not (has_char b'\n' value) && not (has_char b'\r' value)

unfoldable pub valid_environment : Bytes → Bool
valid_environment assignment = valid_parts (break_at b'=' assignment)

abbrev pub KeyChar : ℕ → Type 0
KeyChar c = key_char c ≡ true

-- A letter or underscore, then letters, digits and underscores.
abbrev pub IsKey : Bytes → Type 0
IsKey [] = ⊥
IsKey (c ∷ key) = (key_start c ≡ true) × All KeyChar key

abbrev rejoin : ℕ → Bytes × Option Bytes → Bytes
rejoin c (before, none) = before
rejoin c (before, some after) = before ++ (c ∷ after)

rejoin-push_first :
    (c d : ℕ) (p : Bytes × Option Bytes) → rejoin c (push_first d p) ≡ d ∷ rejoin c p
rejoin-push_first c d (before, none) = refl
rejoin-push_first c d (before, some after) = refl

rejoin-break_at : (c : ℕ) (s : Bytes) → rejoin c (break_at c s) ≡ s
rejoin-break_at c [] = refl
rejoin-break_at c (d ∷ s) =
    ground (arith, rejoin-push_first c d (break_at c s), rejoin-break_at c s)

all-KeyChar : (s : Bytes) → (all key_char s ≡ true) ↔ All KeyChar s
all-KeyChar [] = (λ h. tt, λ h. refl)
all-KeyChar (c ∷ s) =
    (λ h. ground (arith, (all-KeyChar s).0), λ h. ground (arith, (all-KeyChar s).1))

KeyChar-Lacks : (s : Bytes) → All KeyChar s → Lacks b'=' s
KeyChar-Lacks [] h = tt
KeyChar-Lacks (c ∷ s) h = (ground (arith, h.0), KeyChar-Lacks s h.1)

IsKey-Lacks : (key : Bytes) → IsKey key → Lacks b'=' key
IsKey-Lacks [] h = absurd h
IsKey-Lacks (c ∷ key) h = (ground (arith, h.0), KeyChar-Lacks key h.1)

-- The text is KEY=VALUE for a key, and a value without line breaks.
abbrev pub IsAssignment : Bytes → Type 0
IsAssignment s =
    (key : Bytes) × (value : Bytes) × (s ≡ key ++ (b'=' ∷ value))
    × IsKey key
    × Lacks b'\n' value
    × Lacks b'\r' value

parts : (p : Bytes × Option Bytes) → valid_parts p ≡ true → IsAssignment (rejoin b'=' p)
parts (key, none) h = cc
parts ([], some value) h = cc
parts (c ∷ key, some value) h = (
  c ∷ key,
  value,
  refl,
  ground (arith, (all-KeyChar key).0),
  (has_char-false b'\n' value).0 (ground arith),
  (has_char-false b'\r' value).0 (ground arith),
)

accept :
    (key value : Bytes)
    → IsKey key
    → Lacks b'\n' value
    → Lacks b'\r' value
    → valid_parts (key, some value) ≡ true
accept [] value k lf cr = absurd k
accept (c ∷ key) value k lf cr = ground (
  arith,
  (all-KeyChar key).1 k.1,
  (has_char-false b'\n' value).1 lf,
  (has_char-false b'\r' value).1 cr,
)

-- An assignment is accepted exactly when it is KEY=VALUE, where KEY is a letter or an underscore
-- followed by letters, digits and underscores, and VALUE holds no line feed and no carriage return.
pub valid_environment-IsAssignment :
    (assignment : Bytes) → (valid_environment assignment ≡ true) ↔ IsAssignment assignment
unfolding valid_environment
valid_environment-IsAssignment s = (
  λ h. rw (← rejoin-break_at b'=' s) (parts (break_at b'=' s) h),
  λ (key, value, e, k, lf, cr).
      rw (e, break_at-append b'=' key value (IsKey-Lacks key k)) (accept key value k lf cr),
)

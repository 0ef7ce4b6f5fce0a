-- ===== src/Validate/Name.antt =====
-- util/validate.c: mc_valid_name, and what an accepted name is good for.
use minicontainer.Base.{
  ℕ, ◌≤◌, ◌≡◌, ◌≢◌, ◌↔◌, inl, inr, refl, sym, ap, ◌∙◌, Bool, true, false, not, ◌||◌, [], ◌∷◌, ◌++◌,
  arith, Bytes, codes, length, All, ◌==◌, ltb, if◌then◌else◌, Bool-cases, is_alnum, is_lower,
  is_digit, starts_with, all, Lacks,
}
use minicontainer.Validate.Path.{slash, safe_archive_path}
use minicontainer.Validate.Path.Walk.{components}
use minicontainer.Validate.Path.Safe.{safe_archive_path-IsBeneath}

-- strstr(name, "..") != NULL
pub has_dots : Bytes → Bool
has_dots [] = false
has_dots (c ∷ s) = starts_with (codes "..") (c ∷ s) || has_dots s

abbrev pub name_char : ℕ → Bool
name_char c = is_lower c || is_digit c || c == b'.' || c == b'_' || c == b'-'

abbrev first_alnum : Bytes → Bool
first_alnum [] = false
first_alnum (c ∷ s) = is_alnum c

unfoldable pub valid_name : Bytes → Bool
unfolding has_dots
valid_name name =
    if length name == 0 || ltb 64 (length name) || not (first_alnum name)
    then false
    else if all name_char name
    then not (has_dots name)
    else false

-- Somewhere in the text two full stops stand side by side.
abbrev pub HasDots : Bytes → Type 0
HasDots s = (before : Bytes) × (after : Bytes) × (s ≡ before ++ (b'.' ∷ b'.' ∷ after))

starts_dots :
    (s : Bytes) → starts_with (codes "..") s ≡ true → (after : Bytes) × (s ≡ b'.' ∷ b'.' ∷ after)
starts_dots [] h = cc
starts_dots (c ∷ []) h = ground arith
starts_dots (c ∷ d ∷ s) h = (s, ground arith)

has_dots-HasDots : (s : Bytes) → has_dots s ≡ true → HasDots s
unfolding has_dots
has_dots-HasDots [] h = cc
has_dots-HasDots (c ∷ s) h = elim (Bool-cases (starts_with (codes "..") (c ∷ s))) [
  | inl here ↦ let (after, e) = starts_dots (c ∷ s) here in ([], after, e)
  | inr there ↦
      let (before, after, e) = has_dots-HasDots s (rw there at h) in
      (c ∷ before, after, ap (λ t. c ∷ t) e)
]

HasDots-has_dots : (before after : Bytes) → has_dots (before ++ (b'.' ∷ b'.' ∷ after)) ≡ true
unfolding has_dots
HasDots-has_dots [] after = refl
HasDots-has_dots (c ∷ before) after = ground (arith, HasDots-has_dots before after)

abbrev pub NameChar : ℕ → Type 0
NameChar c = name_char c ≡ true

all-All : (s : Bytes) → (all name_char s ≡ true) ↔ All NameChar s
all-All [] = (λ h. tt, λ h. refl)
all-All (c ∷ s) = (λ h. ground (arith, (all-All s).0), λ h. ground (arith, (all-All s).1))

-- The first byte is a lower-case letter or a digit.
abbrev pub FirstAlnum : Bytes → Type 0
FirstAlnum [] = ⊥
FirstAlnum (c ∷ s) = (is_lower c || is_digit c) ≡ true

clash : ◌≡◌ {A = Bool} false true → ⊥
clash e = cc

no_dots : (s : Bytes) → (has_dots s ≡ false) ↔ (¬ HasDots s)
no_dots s = (
  λ h d.
      let (before, after, e) = d in clash (sym h ∙ (ap has_dots e ∙ HasDots-has_dots before after)),
  λ h. elim (Bool-cases (has_dots s)) [
    | inl found ↦ absurd (h (has_dots-HasDots s found))
    | inr lacks ↦ lacks
  ],
)

-- A name is accepted exactly when it is 1 to 64 bytes long, begins with a lower-case letter or a
-- digit, has only lower-case letters, digits, '.', '_' and '-', and nowhere two full stops in a row.
pub valid_name_iff :
    (name : Bytes)
    → (valid_name name ≡ true)
      ↔ (FirstAlnum name × (length name ≤ 64) × All NameChar name × (¬ HasDots name))
unfolding valid_name
valid_name_iff [] = (λ h. cc, λ h. absurd h.0)
valid_name_iff (c ∷ s) = (
  λ h. (
    ground (arith, facts),
    ground (arith, facts),
    ground (arith, facts),
    (no_dots (c ∷ s)).0 (ground (arith, facts)),
  ),
  λ h. ground (arith, facts, (no_dots (c ∷ s)).1 h.3),
)
  where
    facts : (all name_char (c ∷ s) ≡ true) ↔ All NameChar (c ∷ s)
    facts = all-All (c ∷ s)

NameChar-Lacks : (c : ℕ) (s : Bytes) → name_char c ≡ false → All NameChar s → Lacks c s
NameChar-Lacks c [] h a = tt
NameChar-Lacks c (d ∷ s) h a =
    (λ e. clash (sym h ∙ (ap name_char (sym e) ∙ a.0)), NameChar-Lacks c s h a.1)

components-single : (c : ℕ) (s : Bytes) → Lacks slash (c ∷ s) → components (c ∷ s) ≡ (c ∷ s) ∷ []
unfolding components
components-single c [] h = ground arith
components-single c (d ∷ s) h = ground (arith, components-single d s h.1)

first-not-dot : (c : ℕ) (s t : Bytes) → FirstAlnum (c ∷ s) → (c ∷ s) ≢ b'.' ∷ t
first-not-dot c s t h e = ground arith

-- An accepted name is also an accepted archive path of a single component, the name itself: as a
-- file name it neither leaves its directory nor enters another.
pub valid_name-safe_archive_path :
    (name : Bytes)
    → valid_name name ≡ true
    → (safe_archive_path name ≡ true) × (components name ≡ name ∷ [])
valid_name-safe_archive_path [] v = absurd ((valid_name_iff []).0 v).0
valid_name-safe_archive_path (c ∷ s) v =
    let facts = (valid_name_iff (c ∷ s)).0 v in
    let single = components-single c s (NameChar-Lacks slash (c ∷ s) refl facts.2) in
    (
      (safe_archive_path-IsBeneath (c ∷ s)).1 (
        (λ e. cc),
        ground arith,
        NameChar-Lacks b'\\' (c ∷ s) refl facts.2,
        rw single
            (((λ e. cc), first-not-dot c s [] facts.0, first-not-dot c s (b'.' ∷ []) facts.0), tt),
      ),
      single,
    )

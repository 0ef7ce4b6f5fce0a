-- ===== src/Validate/Path/Safe.antt =====
-- Safe archive paths: what is accepted, and where such a path leads.
use minicontainer.Base.{
  Bytes, ◌≢◌, [], codes, ◌≡◌, some, ◌↔◌, arith, str_eq_iff, List, All, ◌∷◌, is_some, inl, inr, ◌⊎◌,
  refl, sym, ◌∙◌, true, false, Option, none, Lacks, has_char, has_char-false,
}
use minicontainer.Validate.Path.{check_component, starts_slash, safe_archive_path}
use minicontainer.Validate.Path.Walk.{walk, components, fold_option, each_component-fold, descend}

-- A name that a directory can hold: not empty, ".", or "..".
abbrev pub IsName : Bytes → Type 0
IsName p = (p ≢ []) × (p ≢ codes ".") × (p ≢ codes "..")

check-IsName : (p : Bytes) → (check_component tt p ≡ some tt) ↔ IsName p
check-IsName p = (
  λ h. ground (arith, str_eq_iff p (codes "."), str_eq_iff p (codes "..")),
  λ h. ground (arith, str_eq_iff p (codes "."), str_eq_iff p (codes "..")),
)

check-cases : (p : Bytes) → (check_component tt p ≡ none) ⊎ (check_component tt p ≡ some tt)
check-cases p = ground arith

clash : ◌≡◌ {A = Option (Unit {0})} none (some tt) → ⊥
clash e = cc

fold-check : (ps : List Bytes) → (fold_option check_component ps tt ≡ some tt) ↔ All IsName ps
fold-check [] = (λ h. tt, λ h. refl)
fold-check (p ∷ ps) = elim (check-cases p) [
  | inl bad ↦ rw bad ((λ h. cc), λ h. absurd (clash (sym bad ∙ (check-IsName p).1 h.0)))
  | inr good ↦
      rw good (λ h. ((check-IsName p).0 good, (fold-check ps).0 h), λ h. (fold-check ps).1 h.1)
]

-- Below the root: no separator in front, no backslash, and names alone.
abbrev pub IsBeneath : Bytes → Type 0
IsBeneath path =
    (path ≢ []) × (starts_slash path ≡ false) × Lacks b'\\' path × All IsName (components path)

is_some-unit : (o : Option (Unit {0})) → (is_some o ≡ true) ↔ (o ≡ some tt)
is_some-unit none = (λ h. cc, λ h. cc)
is_some-unit (some tt) = (λ h. refl, λ h. refl)

-- A path is accepted exactly when it is not empty, does not begin with a separator, holds no
-- backslash, and each of its components is a name other than "." and "..", none of them empty.
pub safe_archive_path-IsBeneath : (path : Bytes) → (safe_archive_path path ≡ true) ↔ IsBeneath path
unfolding safe_archive_path
safe_archive_path-IsBeneath [] = (λ h. cc, λ h. absurd (h.0 refl))
safe_archive_path-IsBeneath (c ∷ s) = rw (each_component-fold check_component (c ∷ s) tt) (
  λ h. ground (arith, lacks, (fold-check (components (c ∷ s))).0, unit),
  λ h. ground (arith, lacks, (fold-check (components (c ∷ s))).1, unit),
)
  where
    lacks : (has_char b'\\' (c ∷ s) ≡ false) ↔ Lacks b'\\' (c ∷ s)
    lacks = has_char-false b'\\' (c ∷ s)

    unit :
        (is_some (fold_option check_component (components (c ∷ s)) tt) ≡ true)
        ↔ (fold_option check_component (components (c ∷ s)) tt ≡ some tt)
    unit = is_some-unit _

abbrev pub enter : List Bytes → List Bytes → List Bytes
enter [] stack = stack
enter (p ∷ ps) stack = enter ps (p ∷ stack)

descend-name : (p : Bytes) (stack : List Bytes) → IsName p → descend stack p ≡ some (p ∷ stack)
descend-name p stack h = ground (arith, str_eq_iff p (codes "."), str_eq_iff p (codes ".."))

fold_option-enter :
    (ps stack : List Bytes) → All IsName ps → fold_option descend ps stack ≡ some (enter ps stack)
fold_option-enter [] stack h = refl
fold_option-enter (p ∷ ps) stack h =
    rw (descend-name p stack h.0) (fold_option-enter ps (p ∷ stack) h.1)

-- An accepted archive path, followed from any directory, only goes down: the walk succeeds and
-- enters the components of the path one after the other.
pub walk-safe_archive_path :
    (path : Bytes) (stack : List Bytes)
    → safe_archive_path path ≡ true
    → walk path stack ≡ some (enter (components path) stack)
unfolding walk
walk-safe_archive_path path stack h =
    fold_option-enter (components path) stack ((safe_archive_path-IsBeneath path).0 h).3

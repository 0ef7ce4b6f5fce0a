-- ===== src/Mount/Target.antt =====
-- Mount targets.
use minicontainer.Base.{
  ℕ, ◌+◌, ◌<◌, ◌≡◌, ◌≢◌, ◌↔◌, ◌⊎◌, inl, inr, refl, sym, ap, ◌∙◌, Bool, true, false, not, ◌||◌, List,
  [], ◌∷◌, ◌++◌, arith, Bytes, codes, length, All, ◌==◌, leb, if◌then◌else◌, str_eq_iff, drop, any,
  &&-eq-true, starts_with-append, subst, append-nil, not_iff, starts_with-drop, drop-append,
}
use minicontainer.Validate.Path.{is_dot_dot}
use minicontainer.Validate.Path.Walk.{components}
use minicontainer.Mount.{
  slash, path_max, dot_dot_loop, under_path, ends_component, forbidden, valid_target,
}

abbrev others : List Bytes → List Bytes
others [] = []
others (p ∷ ps) = ps

-- The components that are still to be looked at: not the one that is already under way.
abbrev from_here : Bool → List Bytes → List Bytes
from_here bounded ps = if bounded then ps else others ps

abbrev Agrees : Bool → Bytes → Type 0
Agrees bounded t = dot_dot_loop bounded t ≡ any is_dot_dot (from_here bounded (components t))

dot_dot_loop-any_open :
    (bounded : Bool) (c d e : ℕ) (s : Bytes)
    → Agrees false (e ∷ s)
    → Agrees true (d ∷ e ∷ s)
    → Agrees false (d ∷ e ∷ s)
    → Agrees bounded (c ∷ d ∷ e ∷ s)
unfolding dot_dot_loop components
dot_dot_loop-any_open bounded c d e s h1 h2 h3 = ground arith

dot_dot_loop-any : (bounded : Bool) (t : Bytes) → Agrees bounded t
dot_dot_loop-any bounded [] = unfold dot_dot_loop components in ground arith
dot_dot_loop-any bounded (c ∷ []) = unfold dot_dot_loop components in ground arith
dot_dot_loop-any bounded (c ∷ d ∷ []) = unfold dot_dot_loop components in ground arith
dot_dot_loop-any bounded (c ∷ d ∷ e ∷ s) =
    dot_dot_loop-any_open bounded c d e s (dot_dot_loop-any false (e ∷ s))
      (dot_dot_loop-any true (d ∷ e ∷ s)) (dot_dot_loop-any false (d ∷ e ∷ s))

-- `path` is the directory or lies below it.
abbrev pub IsUnder : Bytes → Bytes → Type 0
IsUnder path parent = (path ≡ parent) ⊎ ((rest : Bytes) × (path ≡ parent ++ (slash ∷ rest)))

ends-cases :
    (s : Bytes) → ends_component s ≡ true → (s ≡ []) ⊎ ((rest : Bytes) × (s ≡ slash ∷ rest))
ends-cases [] h = inl refl
ends-cases (c ∷ s) h = inr (s, ground arith)

pub under_path-IsUnder : (path parent : Bytes) → under_path path parent ≡ true → IsUnder path parent
under_path-IsUnder path parent h =
    let (starts, ends) = &&-eq-true _ _ h in
    let e = starts_with-drop parent path starts in
    elim (ends-cases (drop (length parent) path) ends) [
      | inl d ↦ inl (e ∙ (ap (λ t. parent ++ t) d ∙ append-nil parent))
      | inr (rest, d) ↦ inr (rest, e ∙ ap (λ t. parent ++ t) d)
    ]

under_path_append :
    (parent s : Bytes) → ends_component s ≡ true → under_path (parent ++ s) parent ≡ true
under_path_append parent s h = rw (starts_with-append parent s, drop-append parent s) h

pub IsUnder-under_path : (path parent : Bytes) → IsUnder path parent → under_path path parent ≡ true
IsUnder-under_path path parent (inl e) =
    subst (λ t. under_path t parent ≡ true) (append-nil parent ∙ sym e)
      (under_path_append parent [] refl)
IsUnder-under_path path parent (inr (rest, e)) =
    subst (λ t. under_path t parent ≡ true) (sym e) (under_path_append parent (slash ∷ rest) refl)

-- A target below the root, of which no component is "..", and which is not, and is not below, one
-- of the directories that the runtime keeps for itself, as they are spelled.
abbrev pub IsTarget : Bytes → Type 0
IsTarget target =
    ((rest : Bytes) × (target ≡ slash ∷ rest) × (rest ≢ []))
    × (length target < path_max)
    × All (λ p. p ≢ codes "..") (components target)
    × All (λ parent. ¬ IsUnder target parent) forbidden

any-All :
    {P : Bytes → Type 0} (test : Bytes → Bool)
    → ((p : Bytes) → (test p ≡ false) ↔ P p)
    → (ps : List Bytes) → (any test ps ≡ false) ↔ All P ps
any-All test h [] = (λ _. tt, λ _. refl)
any-All test h (p ∷ ps) = (
  λ e. ground (arith, (h p).0, (any-All test h ps).0),
  λ e. ground (arith, (h p).1, (any-All test h ps).1),
)

no_dot_dot : (p : Bytes) → (is_dot_dot p ≡ false) ↔ (p ≢ codes "..")
no_dot_dot p = not_iff (is_dot_dot p) (str_eq_iff p (codes ".."))

not-IsUnder :
    (target parent : Bytes) → (under_path target parent ≡ false) ↔ (¬ IsUnder target parent)
not-IsUnder target parent =
    not_iff (under_path target parent)
      (under_path-IsUnder target parent, IsUnder-under_path target parent)

abbrev accepted : ℕ → Bool → Bool → Bool → Bool
accepted c long dots apart =
    if not (c == slash) || false || long then false else if dots then false else not apart

accepted_iff :
    (c : ℕ) (n : ℕ) (dots under : Bool)
    → (accepted c (leb path_max n) dots under ≡ true)
      ↔ ((c ≡ slash) × (n < path_max) × (dots ≡ false) × (under ≡ false))
accepted_iff c n dots under = (λ h. ground arith, λ h. ground arith)

tail_nil : (c : ℕ) (rest : Bytes) → c ∷ [] ≡ slash ∷ rest → rest ≡ []
tail_nil c rest e = cc

head_eq : (c : ℕ) (t : Bytes) → ((rest : Bytes) × (c ∷ t ≡ slash ∷ rest) × (rest ≢ [])) → c ≡ slash
head_eq c t (rest, e, more) = cc

-- A target is accepted exactly when it is one in the above sense.
pub valid_target-IsTarget : (target : Bytes) → (valid_target target ≡ true) ↔ IsTarget target
unfolding valid_target
valid_target-IsTarget [] = (λ h. cc, λ h. let (rest, e, more) = h.0 in cc)
valid_target-IsTarget (c ∷ []) =
    (λ h. ground arith, λ h. let (rest, e, more) = h.0 in absurd (more (tail_nil c rest e)))
valid_target-IsTarget (c ∷ d ∷ s) = rw (dot_dot_loop-any true (c ∷ d ∷ s)) (
  λ h.
      let (absolute, short, dots, apart) = (accepted_iff c _ _ _).0 h in
      ((d ∷ s, ap (λ b. b ∷ d ∷ s) absolute, λ e. cc), short, (dd).0 dots, un.0 apart),
  λ (front, short, dots, apart).
      (accepted_iff c _ _ _).1 (head_eq c (d ∷ s) front, short, dd.1 dots, un.1 apart),
)
  where
    dd :
        (any is_dot_dot (components (c ∷ d ∷ s)) ≡ false)
        ↔ All (λ p. p ≢ codes "..") (components (c ∷ d ∷ s))
    dd = any-All is_dot_dot no_dot_dot (components (c ∷ d ∷ s))

    un :
        (any (under_path (c ∷ d ∷ s)) forbidden ≡ false)
        ↔ All (λ parent. ¬ IsUnder (c ∷ d ∷ s) parent) forbidden
    un = any-All (under_path (c ∷ d ∷ s)) (not-IsUnder (c ∷ d ∷ s)) forbidden

not-IsUnder_double :
    (c : ℕ) (p rest : Bytes) → c ≢ slash → ¬ IsUnder (slash ∷ slash ∷ rest) (slash ∷ c ∷ p)
not-IsUnder_double c p rest h (inl e) = ground arith
not-IsUnder_double c p rest h (inr (below, e)) = ground arith

-- The comparison with the reserved directories is one of spelling. With a second separator in
-- front every path shorter than PATH_MAX and without a ".." component is accepted, those of /proc,
-- /sys and /dev included, although the system reads both spellings alike.
pub valid_target_double_slash :
    (rest : Bytes)
    → length rest + 2 < path_max
    → All (λ p. p ≢ codes "..") (components rest)
    → valid_target (slash ∷ slash ∷ rest) ≡ true
unfolding components
valid_target_double_slash rest short dots =
    (valid_target-IsTarget (slash ∷ slash ∷ rest)).1
      ((slash ∷ rest, refl, λ e. cc), omega arith, ((λ e. cc), ((λ e. cc), dots)), apart)
  where
    apart : All (λ parent. ¬ IsUnder (slash ∷ slash ∷ rest) parent) forbidden
    apart = (
      not-IsUnder_double b'p' (codes "roc") rest (omega arith),
      (
        not-IsUnder_double b's' (codes "ys") rest (omega arith),
        (
          not-IsUnder_double b'd' (codes "ev") rest (omega arith),
          (
            not-IsUnder_double b'r' (codes "un/minicontainer") rest (omega arith),
            (not-IsUnder_double b'v' (codes "ar/lib/minicontainer") rest (omega arith), tt),
          ),
        ),
      ),
    )

-- ===== src/Validate/Path.antt =====
-- util/validate.c: mc_safe_archive_path, mc_safe_link_target, apply_components and
-- mc_link_stays_beneath. The children relate them to a walk through a directory tree.
pub mod Walk
pub mod Links
pub mod Safe
use minicontainer.Base.{ℕ, zero, suc, ◌+◌, ◌-◌, ◌<◌, ◌≡◌, refl, Bool, true, false, not, ◌&&◌, ◌||◌}
use minicontainer.Base.{Option, none, some, List, [], ◌∷◌, Bytes, codes, arith, length}
use minicontainer.Base.{◌==◌, leb, ltb, if◌then◌else◌, ◌>>=◌, is_some, str_eq, has_char, break_at}

abbrev pub slash : ℕ
slash = b'/'

-- The loop that both functions run over the components of a path, on fuel: the text at `component`
-- up to the next separator is handed to `step`, `none` is an early return of 0.
module _ {ℓ} {S : Type ℓ} (step : S → Bytes → Option S) where
  pub scan_components : ℕ → Bytes → S → Option S
  scan_components zero path state = none
  scan_components (suc fuel) [] state = some state
  scan_components (suc fuel) (c ∷ path) state =
      let parts = break_at slash (c ∷ path) in
      step state parts.0 >>= λ next. elim parts.1 [
        | none ↦ some next
        | some rest ↦ scan_components fuel rest next
      ]

-- The loop ends after at most one round for each byte.
pub each_component {ℓ} : {S : Type ℓ} → (S → Bytes → Option S) → Bytes → S → Option S
unfolding scan_components
each_component step path state = scan_components step (suc (length path)) path state

abbrev pub is_dot : Bytes → Bool
is_dot component = str_eq component (codes ".")

abbrev pub is_dot_dot : Bytes → Bool
is_dot_dot component = str_eq component (codes "..")

abbrev pub is_empty : Bytes → Bool
is_empty [] = true
is_empty (c ∷ s) = false

abbrev pub check_component : Unit {0} → Bytes → Option (Unit {0})
check_component u component =
    if is_empty component || is_dot component || is_dot_dot component then none else some tt

abbrev pub starts_slash : Bytes → Bool
starts_slash [] = false
starts_slash (c ∷ s) = c == slash

unfoldable pub safe_archive_path : Bytes → Bool
unfolding each_component
safe_archive_path path =
    if is_empty path || starts_slash path || has_char b'\\' path
    then false
    else is_some (each_component check_component path tt)

abbrev skip_slash : Bytes → Bytes
skip_slash [] = []
skip_slash (c ∷ s) = if c == slash then s else c ∷ s

unfoldable pub safe_link_target : Bytes → Bool
unfolding safe_archive_path
safe_link_target path = safe_archive_path (skip_slash path)

-- One round of apply_components: `none` when ".." would leave the root.
abbrev pub move : ℕ → Bytes → Option ℕ
move depth component =
    if is_dot_dot component
    then (if depth == 0 then none else some (depth - 1))
    else if not (is_empty component) && not (is_dot component)
    then some (depth + 1)
    else some depth

unfoldable pub apply_components : Bytes → ℕ → Option ℕ
unfolding each_component
apply_components path depth = each_component move path depth

-- The text before the last separator: `none` where strrchr finds nothing.
pub before_last : ℕ → Bytes → Option Bytes
before_last c [] = none
before_last c (d ∷ s) = elim (before_last c s) [
  | some p ↦ some (d ∷ p)
  | none ↦ if d == c then some [] else none
]

abbrev pub parent_of : Bytes → Bytes
unfolding before_last
parent_of entry_path = elim (before_last slash entry_path) [ none ↦ [] | some p ↦ p ]

-- sizeof(parent)
abbrev pub parent_size : ℕ
parent_size = 4096

unfoldable pub link_stays_beneath : Bytes → Bytes → Bool
unfolding apply_components parent_of
link_stays_beneath entry_path target =
    if is_empty target || has_char b'\\' target
    then false
    else if starts_slash target
    then is_some (apply_components (skip_slash target) 0)
    else if leb parent_size (length (parent_of entry_path))
    then false
    else is_some
        (apply_components (parent_of entry_path) 0 >>= λ depth. apply_components target depth)

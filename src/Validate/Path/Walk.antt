-- ===== src/Validate/Path/Walk.antt =====
-- A walk through a directory tree, by the components of a path, and what the checks of paths and
-- links say about it.
use minicontainer.Base.{
  ℕ, zero, suc, ◌≤◌, ◌<◌, ◌≡◌, refl, Option, none, some, List, [], ◌∷◌, Bytes, arith, length, ◌==◌,
  if◌then◌else◌, ◌>>=◌, break_at, ◌||◌,
}
use minicontainer.Validate.Path.{
  slash, scan_components, each_component, is_dot_dot, move, apply_components, is_empty, is_dot,
}

abbrev pub push_head : ℕ → List Bytes → List Bytes
push_head c [] = (c ∷ []) ∷ []
push_head c (p ∷ ps) = (c ∷ p) ∷ ps

-- The components of a path; a separator at the end begins none.
unfoldable pub components : Bytes → List Bytes
components [] = []
components (c ∷ s) = let rest = components s in if c == slash then [] ∷ rest else push_head c rest

-- The steps of a loop, in order, until one returns.
abbrev pub fold_option {ℓ} : {S : Type ℓ} → (S → Bytes → Option S) → List Bytes → S → Option S
fold_option step [] state = some state
fold_option step (p ∷ ps) state = step state p >>= λ next. fold_option step ps next

abbrev components_of : Option Bytes → List Bytes
components_of none = []
components_of (some rest) = components rest

-- One round of the loop takes the first component and leaves the others.
components-break_at :
    (c : ℕ) (s : Bytes)
    → components (c ∷ s) ≡ (break_at slash (c ∷ s)).0 ∷ components_of (break_at slash (c ∷ s)).1
unfolding components
components-break_at c [] = ground arith
components-break_at c (d ∷ s) = ground (arith, components-break_at d s)

break_at_lt :
    (c : ℕ) (s : Bytes) {rest : Bytes}
    → (break_at slash (c ∷ s)).1 ≡ some rest
    → length rest ≤ length s
break_at_lt c [] h = ground arith
break_at_lt c (d ∷ s) {rest} h = ground (arith, break_at_lt d s {rest = rest})

>>=_congr {ℓ κ} :
    {A : Type ℓ} {B : Type κ} (m : Option A) (f g : A → Option B)
    → ((a : A) → f a ≡ g a)
    → (m >>= f) ≡ (m >>= g)
>>=_congr none f g h = refl
>>=_congr (some a) f g h = h a

components-nil : components [] ≡ []
unfolding components
components-nil = refl

module _ {ℓ} {S : Type ℓ} (step : S → Bytes → Option S) where
  round-fold :
      (fuel : ℕ) (o : Option Bytes)
      → ((rest : Bytes)
          → o ≡ some rest
          → (next : S)
          → scan_components step fuel rest next ≡ fold_option step (components rest) next)
      → (next : S)
      → (elim o [ none ↦ some next | some rest ↦ scan_components step fuel rest next ])
        ≡ fold_option step (components_of o) next
  round-fold fuel none h next = refl
  round-fold fuel (some rest) h next = h rest refl next

  -- With a round for each byte the loop visits exactly the components.
  scan_components-fold :
      (fuel : ℕ) (path : Bytes) (state : S)
      → length path < fuel
      → scan_components step fuel path state ≡ fold_option step (components path) state
  unfolding scan_components
  scan_components-fold zero path state h = absurd (omega arith)
  scan_components-fold (suc fuel) [] state h = rw components-nil
  scan_components-fold (suc fuel) (c ∷ path) state h = rw (components-break_at c path) (
      >>=_congr (step state (break_at slash (c ∷ path)).0) _ _ (
        round-fold fuel (break_at slash (c ∷ path)).1 (λ rest e next.
          scan_components-fold fuel rest next (omega (arith, break_at_lt c path {rest = rest} e)))))

  pub each_component-fold :
      (path : Bytes) (state : S)
      → each_component step path state ≡ fold_option step (components path) state
  unfolding each_component
  each_component-fold path state = scan_components-fold (suc (length path)) path state (omega arith)

abbrev leave : List Bytes → Option (List Bytes)
leave [] = none
leave (name ∷ stack) = some stack

-- One step from a directory, given by its names, innermost first. The root has no parent.
abbrev pub descend : List Bytes → Bytes → Option (List Bytes)
descend stack component =
    if is_dot_dot component
    then leave stack
    else if is_empty component || is_dot component
    then some stack
    else some (component ∷ stack)

unfoldable pub walk : Bytes → List Bytes → Option (List Bytes)
walk path stack = fold_option descend (components path) stack

abbrev pub depth_of : Option (List Bytes) → Option ℕ
depth_of none = none
depth_of (some stack) = some (length stack)

move-descend : (stack : List Bytes) (p : Bytes) → move (length stack) p ≡ depth_of (descend stack p)
move-descend [] p = ground arith
move-descend (x ∷ stack) p = ground arith

fold_option-descend :
    (ps : List Bytes) (stack : List Bytes)
    → fold_option move ps (length stack) ≡ depth_of (fold_option descend ps stack)
fold_option-descend [] stack = refl
fold_option-descend (p ∷ ps) stack =
    go (descend stack p) (move-descend stack p) (λ t. fold_option-descend ps t)
  where
    go :
        (next : Option (List Bytes))
        → move (length stack) p ≡ depth_of next
        → ((t : List Bytes) → fold_option move ps (length t) ≡ depth_of (fold_option descend ps t))
        → (move (length stack) p >>= λ d. fold_option move ps d)
          ≡ depth_of (next >>= λ t. fold_option descend ps t)
    go none e ih = rw e
    go (some t) e ih = rw e (ih t)

-- apply_components counts the depth of a walk: it returns 0 exactly where the walk would leave
-- the root, and otherwise leaves the depth of the directory that is reached.
pub apply_components-walk :
    (path : Bytes) (stack : List Bytes)
    → apply_components path (length stack) ≡ depth_of (walk path stack)
unfolding apply_components walk
apply_components-walk path stack =
    rw (each_component-fold move path _) (fold_option-descend (components path) stack)

pub walk_skip : (s : Bytes) (stack : List Bytes) → walk (slash ∷ s) stack ≡ walk s stack
unfolding walk components
walk_skip s stack = refl

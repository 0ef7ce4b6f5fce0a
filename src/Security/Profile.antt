-- ===== src/Security/Profile.antt =====
-- linux/security.c: what mc_seccomp_profile_load accepts.
use minicontainer.Base.{
  ◌≤◌, ◌≡◌, refl, sym, ap, ◌∙◌, Bool, true, false, not, ◌||◌, Option, none, some, List, [], ◌∷◌,
  ◌++◌, map, arith, Bytes, length, All, ◌==◌, ltb, if◌then◌else◌, ◌>>=◌, Exists, any-Exists, any,
  str_eq, str_eq_iff, >>=-eq-some, length-map, subst, ltb-false→le, ◌/◌, ◌%◌,
}
use minicontainer.Security.{
  Seccomp, seccomp_name_valid, ProfileFile, Metadata, is_trusted, load_names, load_array,
  seccomp_profile_load,
}

-- No name stands in the list before it, nor among those loaded earlier.
abbrev pub IsFresh : List Bytes → List Bytes → Type 0
IsFresh loaded [] = Unit
IsFresh loaded (name ∷ names) =
    (¬ Exists (λ other. name ≡ other) loaded) × IsFresh (loaded ++ (name ∷ [])) names

abbrev pub IsTrusted : Option Metadata → Type 0
IsTrusted none = ⊥
IsTrusted (some m) =
    (m.is_regular ≡ true)
    × (m.user ≡ m.effective_user)
    × (m.permissions / 16 % 2 ≡ 0)
    × (m.permissions / 2 % 2 ≡ 0)
    × (m.size ≤ 65536)

is_trusted-IsTrusted : (o : Option Metadata) → is_trusted o ≡ true → IsTrusted o
is_trusted-IsTrusted none h = cc
is_trusted-IsTrusted (some m) h =
    (ground arith, ground arith, ground arith, ground arith, ground arith)

module _ (lib : Seccomp) where
  load_names_step :
      (name : Bytes) (loaded : List Bytes) (rest : Option (List Bytes)) {out : List Bytes}
      → (if not (seccomp_name_valid lib name) || any (str_eq name) loaded then none else rest)
        ≡ some out
      → (seccomp_name_valid lib name ≡ true)
        × (any (str_eq name) loaded ≡ false)
        × (rest ≡ some out)
  load_names_step name loaded rest e = ground arith

  append_nil : (xs : List Bytes) → xs ++ [] ≡ xs
  append_nil [] = refl
  append_nil (x ∷ xs) = ap (λ t. x ∷ t) (append_nil xs)

  append_assoc : (xs ys zs : List Bytes) → (xs ++ ys) ++ zs ≡ xs ++ (ys ++ zs)
  append_assoc [] ys zs = refl
  append_assoc (x ∷ xs) ys zs = ap (λ t. x ∷ t) (append_assoc xs ys zs)

  some_injective : {a b : List Bytes} → some a ≡ some b → b ≡ a
  some_injective e = cc

  not_among :
      (name : Bytes) (loaded : List Bytes)
      → any (str_eq name) loaded ≡ false
      → ¬ Exists (λ other. name ≡ other) loaded
  not_among name loaded e h =
      ground
        (arith, (any-Exists {P = λ other. name ≡ other} (str_eq name) (str_eq_iff name) loaded).1 h)

  load_names_sound :
      (names : List (Option Bytes)) (loaded : List Bytes) {out : List Bytes}
      → load_names lib names loaded ≡ some out
      → (added : List Bytes) × (out ≡ loaded ++ added)
        × (names ≡ map some added)
        × All (λ name. seccomp_name_valid lib name ≡ true) added
        × IsFresh loaded added
  unfolding load_names
  load_names_sound [] loaded {out} e =
      ([], some_injective e ∙ sym (append_nil loaded), refl, tt, tt)
  load_names_sound (none ∷ names) loaded {out} e = cc
  load_names_sound (some name ∷ names) loaded {out} e =
      let (valid, fresh, later) =
        load_names_step name loaded (load_names lib names (loaded ++ (name ∷ []))) {out = out} e in
      let (added, is_out, is_names, all, rest) =
        load_names_sound names (loaded ++ (name ∷ [])) {out = out} later in
      (
        name ∷ added,
        is_out ∙ append_assoc loaded (name ∷ []) added,
        ap (λ t. some name ∷ t) is_names,
        (valid, all),
        (not_among name loaded fresh, rest),
      )

  abbrev IsLoaded : List (Option Bytes) → List Bytes → Type 0
  IsLoaded names denies =
      (names ≡ map some denies)
      × (length names ≤ 128)
      × All (λ name. seccomp_name_valid lib name ≡ true) denies
      × IsFresh [] denies

  unless_some :
      (b : Bool) (rest : Option (List Bytes)) {out : List Bytes}
      → (if b then none else rest) ≡ some out
      → (b ≡ false) × (rest ≡ some out)
  unless_some b rest e = ground arith

  load_array_sound :
      (names : List (Option Bytes)) {denies : List Bytes}
      → load_array lib names ≡ some denies
      → IsLoaded names denies
  unfolding load_array
  load_array_sound names {denies} e =
      let few = unless_some (ltb 128 (length names)) (load_names lib names []) {out = denies} e in
      let (added, is_out, is_names, all, fresh) = load_names_sound names [] {out = denies} few.1 in
      (
        subst (λ d. names ≡ map some d) (sym is_out) is_names,
        ltb-false→le 128 (length names) few.0,
        subst (All (λ name. seccomp_name_valid lib name ≡ true)) (sym is_out) all,
        subst (IsFresh []) (sym is_out) fresh,
      )

  -- A profile that is loaded holds exactly the strings of the array "deny", in its order, where the
  -- file is trusted, a regular file of the own user that others cannot write, of 64 KiB at most, and its
  -- version is 1: at most 128 names, each known to libseccomp, and none twice.
  pub seccomp_profile_load_sound :
      (path : Bytes) (file : ProfileFile) {denies : List Bytes}
      → seccomp_profile_load lib path file ≡ some denies
      → IsTrusted file.metadata
        × (file.version ≡ some 1)
        × (file.deny ≡ some (map some denies))
        × (length denies ≤ 128)
        × All (λ name. seccomp_name_valid lib name ≡ true) denies
        × IsFresh [] denies
  unfolding seccomp_profile_load
  seccomp_profile_load_sound [] file e = cc
  seccomp_profile_load_sound (c ∷ path) file {denies} e =
      let opened : (is_trusted file.metadata ≡ true)
          × ((file.version >>= λ version.
                if version == 1 then (file.deny >>= λ names. load_array lib names) else none)
              ≡ some denies) =
        ground arith in
      let (version, is_version, chosen) = >>=-eq-some file.version _ {b = denies} opened.1 in
      let right : (version ≡ 1) × ((file.deny >>= λ names. load_array lib names) ≡ some denies) =
        ground arith in
      let (names, is_deny, loaded) = >>=-eq-some file.deny _ {b = denies} right.1 in
      let (is_names, few, all, fresh) = load_array_sound names {denies = denies} loaded in
      (
        is_trusted-IsTrusted file.metadata opened.0,
        is_version ∙ ap some right.0,
        is_deny ∙ ap some is_names,
        subst (λ n. n ≤ 128) (ap length is_names ∙ length-map some denies) few,
        all,
        fresh,
      )

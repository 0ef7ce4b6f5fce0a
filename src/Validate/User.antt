-- ===== src/Validate/User.antt =====
-- util/validate.c: mc_parse_user.
use minicontainer.Base.{
  ℕ, ◌≤◌, ◌≡◌, refl, sym, ◌∙◌, true, false, not, ◌||◌, Option, none, some, [], ◌∷◌, ◌++◌, arith,
  Bytes, ◌==◌, ltb, if◌then◌else◌, ◌>>=◌, append-nil, >>=-eq-some,
}
use minicontainer.Base.Number.{Parsed, strtoull, decimal}
use minicontainer.Base.Number.Decimal.{strtoull-decimal}

abbrev pub id_max : ℕ
id_max = 65535

-- A call of strtoul that fails, consumes nothing or returns a number out of range is refused.
abbrev pub accept_id : Parsed → Option (ℕ × Bytes)
accept_id p = if p.range || not p.moved || ltb id_max p.value then none else some (p.value, p.rest)

abbrev at_end : ℕ → ℕ → Bytes → Option (ℕ × ℕ)
at_end user group [] = some (user, group)
at_end user group (c ∷ rest) = none

abbrev parse_group : ℕ × Bytes → Option (ℕ × ℕ)
parse_group (user, []) = some (user, user)
parse_group (user, c ∷ rest) =
    if c == b':'
    then (accept_id (strtoull rest) >>= λ (group, end). at_end user group end)
    else none

-- `*user` and `*group`
unfoldable pub parse_user : Bytes → Option (ℕ × ℕ)
parse_user [] = none
parse_user (c ∷ value) = accept_id (strtoull (c ∷ value)) >>= parse_group

parse_user_lem : (s : Bytes) → parse_user s ≡ (accept_id (strtoull s) >>= parse_group)
unfolding parse_user strtoull
parse_user_lem [] = refl
parse_user_lem (c ∷ s) = refl

strtoull_whole :
    (n : ℕ)
    → n ≤ id_max
    → strtoull (decimal n) ≡ record { value = n; rest = []; moved = true; range = false }
strtoull_whole n h = rw (← append-nil (decimal n)) (strtoull-decimal n [] (omega arith) refl)

-- Every user and group in range that mc_launch_shim prints as UID:GID is read back unchanged.
pub parse_user-decimal :
    (user group : ℕ)
    → user ≤ id_max
    → group ≤ id_max
    → parse_user (decimal user ++ (b':' ∷ decimal group)) ≡ some (user, group)
parse_user-decimal user group hu hg =
    rw (parse_user_lem, strtoull-decimal user (b':' ∷ decimal group) (omega arith) refl)
      (ground (arith, strtoull_whole group hg))

accept_id-le :
    (p : Parsed) {user : ℕ} {rest : Bytes} → accept_id p ≡ some (user, rest) → user ≤ id_max
accept_id-le p h = ground arith

parse_group-le :
    (user : ℕ) (rest : Bytes) {u g : ℕ}
    → user ≤ id_max
    → parse_group (user, rest) ≡ some (u, g)
    → (u ≤ id_max) × (g ≤ id_max)
parse_group-le user [] hu h = ground arith
parse_group-le user (c ∷ rest) {u} {g} hu h =
    let ((group, end), e, last) = >>=-eq-some _ (λ (group, end). at_end user group end) (colon h) in
    let (hu', hg) = at_end-eq-some group end last in
    (rw (← hu') hu, rw (← hg) (accept_id-le (strtoull rest) e))
  where
    colon :
        parse_group (user, c ∷ rest) ≡ some (u, g)
        → (accept_id (strtoull rest) >>= λ (group, end). at_end user group end) ≡ some (u, g)
    colon h' = ground arith

    at_end-eq-some :
        (group : ℕ) (end : Bytes) → at_end user group end ≡ some (u, g) → (user ≡ u) × (group ≡ g)
    at_end-eq-some group [] e = ground arith
    at_end-eq-some group (_ ∷ _) e = cc

-- An accepted user and an accepted group are 16-bit numbers.
pub parse_user-le :
    (value : Bytes) {user group : ℕ}
    → parse_user value ≡ some (user, group)
    → (user ≤ id_max) × (group ≤ id_max)
parse_user-le value {user} {group} h =
    let ((u, rest), e, last) = >>=-eq-some _ parse_group (sym (parse_user_lem value) ∙ h) in
    parse_group-le u rest (accept_id-le (strtoull value) e) last

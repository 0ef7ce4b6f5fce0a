-- ===== src/State/Ipam.antt =====
-- mc_state_allocate_ip: the address is free, and one is found as long as there is one.
use minicontainer.Base.{
  ℕ, zero, suc, ◌+◌, ◌≤◌, ◌<◌, ◌≡◌, ◌↔◌, inl, inr, refl, Bool, true, false, Option, none, some,
  List, arith, Bytes, ◌==◌, Bool-cases, Exists, any-Exists, some-injective, subst, not_iff, ==_iff,
}
use minicontainer.State.Json.{Json}
use minicontainer.State.Registry.{
  World, opened, ok, err, exit_conflict, subnet, leased, marks, is_used, free_host, allocate_ip,
}

free_host-some :
    (used : ℕ → Bool) (rounds candidate : ℕ) {host : ℕ}
    → free_host used rounds candidate ≡ some host
    → (candidate ≤ host) × (host < candidate + rounds) × (used host ≡ false)
unfolding free_host
free_host-some used zero candidate h = cc
free_host-some used (suc rounds) candidate {host} h = elim (Bool-cases (used candidate)) [
  | inl taken ↦
      let (lo, hi, fresh) =
        free_host-some used rounds (candidate + 1) {host = host} (rw taken at h) in
      (omega arith, omega arith, fresh)
  | inr fresh ↦
      let e : candidate ≡ host = some-injective candidate host (rw fresh at h) in
      (omega arith, omega arith, subst (λ n. used n ≡ false) e fresh)
]

free_host-none :
    (used : ℕ → Bool) (rounds candidate host : ℕ)
    → free_host used rounds candidate ≡ none
    → candidate ≤ host
    → host < candidate + rounds
    → used host ≡ true
unfolding free_host
free_host-none used zero candidate host h lo hi = absurd (omega arith)
free_host-none used (suc rounds) candidate host h lo hi = elim (Bool-cases (used candidate)) [
  | inl taken ↦ elim (Bool-cases (candidate == host)) [
    | inl e ↦ subst (λ n. used n ≡ true) ((==_iff candidate host).0 e) taken
    | inr e ↦
        free_host-none used rounds (candidate + 1) host (rw taken at h) (ground arith) (omega arith)
  ]
  | inr fresh ↦ absurd (found candidate (rw fresh at h))
]
  where
    found : (n : ℕ) → ◌≡◌ {A = Option ℕ} (some n) none → ⊥
    found n e = cc

module _ (J : Json) where
  marks_iff :
      (w : World J) (host : ℕ) (id : Bytes)
      → (marks J w host id ≡ true) ↔ (leased J w id ≡ some host)
  marks_iff w host id = go (leased J w id)
    where
      go :
          (o : Option ℕ)
          → ((elim o [ none ↦ false | some used ↦ used == host ]) ≡ true) ↔ (o ≡ some host)
      go none = (λ h. cc, λ h. cc)
      go (some used) = (λ h. ground arith, λ h. ground arith)

  -- Some container of the registry holds the host address.
  abbrev pub IsLeased : World J → List Bytes → ℕ → Type 0
  IsLeased w ids host = Exists (λ id. leased J w id ≡ some host) ids

  is_used-IsLeased :
      (w : World J) (ids : List Bytes) (host : ℕ)
      → (is_used J w ids host ≡ true) ↔ IsLeased w ids host
  is_used-IsLeased w ids host = any-Exists (marks J w host) (marks_iff w host) ids

  -- An allocated address is 10.44.0.2 to 10.44.0.254, and no container of the registry holds it.
  pub allocate_ip-fresh :
      (w : World J) (ids : List Bytes) {ip : ℕ}
      → w.listing ≡ opened ids
      → allocate_ip J w ≡ ok ip
      → (host : ℕ) × (ip ≡ subnet + host) × (2 ≤ host) × (host ≤ 254) × (¬ IsLeased w ids host)
  unfolding allocate_ip
  allocate_ip-fresh w ids {ip} e h =
      go (free_host (is_used J w ids) 253 2)
        (λ host f. free_host-some (is_used J w ids) 253 2 {host = host} f) (rw e at h)
    where
      go :
          (o : Option ℕ)
          → ((host : ℕ)
              → o ≡ some host
              → (2 ≤ host) × (host < 2 + 253) × (is_used J w ids host ≡ false))
          → (elim o [ none ↦ err exit_conflict | some host ↦ ok (subnet + host) ]) ≡ ok ip
          → (host : ℕ) × (ip ≡ subnet + host) × (2 ≤ host) × (host ≤ 254) × (¬ IsLeased w ids host)
      go none f h' = cc
      go (some host) f h' =
          let (lo, hi, fresh) = f host refl in
          (host, ground arith, lo, omega arith, (not_iff _ (is_used-IsLeased w ids host)).0 fresh)

  -- The pool is reported as exhausted exactly when each of the 253 addresses is held.
  pub allocate_ip_exhausted :
      (w : World J) (ids : List Bytes)
      → w.listing ≡ opened ids
      → (allocate_ip J w ≡ err exit_conflict)
        ↔ ((host : ℕ) → 2 ≤ host → host ≤ 254 → IsLeased w ids host)
  unfolding allocate_ip
  allocate_ip_exhausted w ids e = rw e (
      go (free_host (is_used J w ids) 253 2)
        (λ host f. free_host-some (is_used J w ids) 253 2 {host = host} f)
        (λ f host. free_host-none (is_used J w ids) 253 2 host f))
    where
      go :
          (o : Option ℕ)
          → ((host : ℕ)
              → o ≡ some host
              → (2 ≤ host) × (host < 2 + 253) × (is_used J w ids host ≡ false))
          → (o ≡ none → (host : ℕ) → 2 ≤ host → host < 2 + 253 → is_used J w ids host ≡ true)
          → ((elim o [ none ↦ err exit_conflict | some host ↦ ok (subnet + host) ])
              ≡ err exit_conflict)
            ↔ ((host : ℕ) → 2 ≤ host → host ≤ 254 → IsLeased w ids host)
      go none f g = (
        λ _ host lo hi. (is_used-IsLeased w ids host).0 (g refl host lo (omega arith)),
        λ _. refl,
      )
      go (some host) f g =
          let (lo, hi, fresh) = f host refl in
          (
            λ h'. cc,
            λ all.
                absurd
                  ((not_iff _ (is_used-IsLeased w ids host)).0 fresh (all host lo (omega arith))),
          )

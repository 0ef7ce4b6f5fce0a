-- ===== src/Shim/Accepted.antt =====
-- runtime/shim_main.c: what holds of the options of every container that the shim runs.
use minicontainer.Base.{
  ℕ, ◌≤◌, ◌<◌, ◌≡◌, ◌⊎◌, inl, inr, refl, ap, Bool, true, false, not, ◌&&◌, Option, none, some, List,
  [], ◌∷◌, ◌++◌, arith, Bytes, codes, All, ◌==◌, leb, if◌then◌else◌, ◌>>=◌, is_some, str_eq,
  All-append, >>=-eq-some, subst,
}
use minicontainer.Base.Number.{u64_max}
use minicontainer.Validate.Environment.{valid_environment}
use minicontainer.Validate.User.{id_max, parse_user, parse_user-le}
use minicontainer.Resource.{parse_positive_u64}
use minicontainer.Resource.Sizes.{parse_positive_u64_bounds}
use minicontainer.Network.{Publish, tcp, udp, scan_unsigned}
use minicontainer.Mount.{parse_bind_mount, parse_tmpfs_mount}
use minicontainer.Mount.Specs.{parse_bind_mount-IsBind, parse_tmpfs_mount_bounds}
use minicontainer.Security.{capability_parse, seccomp_name_valid}
use minicontainer.Cli.{Machine, set_bit, pids_limit, parse_network}
use minicontainer.Cli.Accepted.{IsMount}
use minicontainer.Shim.{
  ShimOptions, cleared, ShimKey, id_key, rootfs_key, hostname_key, workdir_key, user_key, env_key,
  ready_key, memory_key, swap_key, quota_key, pids_key, network_key, ipv4_key, publish_key,
  cap_add_key, bind_key, tmpfs_key, deny_key, shim_key_of, whole_number, parse_descriptor,
  parse_ipv4, next_number, check_numbers, parse_numbers, apply_shim_key, shim_flag, shim_loop,
  is_absolute, check_shim, parse_shim,
}

some_eq : {a b : ShimOptions} → some a ≡ some b → a ≡ b
some_eq e = cc

some_pair_eq : {a b : ShimOptions × List Bytes} → some a ≡ some b → a ≡ b
some_pair_eq e = cc

if_some :
    (b : Bool) (o : ShimOptions) {next : ShimOptions}
    → (if b then some o else none) ≡ some next
    → (b ≡ true) × (o ≡ next)
if_some true o e = (refl, some_eq e)
if_some false o e = cc

if_pair :
    (b : Bool) (x : ShimOptions × List Bytes) {r : ShimOptions × List Bytes}
    → (if b then some x else none) ≡ some r
    → (b ≡ true) × (x ≡ r)
if_pair true x e = (refl, some_pair_eq e)
if_pair false x e = cc

unless_some :
    (b : Bool) (o : ShimOptions) {next : ShimOptions}
    → (if b then none else some o) ≡ some next
    → (b ≡ false) × (o ≡ next)
unless_some true o e = cc
unless_some false o e = (refl, some_eq e)

-- The ports are in range, and the protocol is TCP or UDP.
abbrev pub IsPort : Publish → Type 0
IsPort p =
    ((0 < p.host_port) × (p.host_port ≤ 65535))
    × ((0 < p.container_port) × (p.container_port ≤ 65535))
    × ((p.protocol ≡ tcp) ⊎ (p.protocol ≡ udp))

check_numbers-IsPort :
    (address host container : ℕ) (last : ℕ × Bytes) {p : Publish}
    → check_numbers address host container last ≡ some p
    → IsPort p
check_numbers-IsPort address host container (protocol, rest) {p} h = ground arith

parse_numbers-IsPort : (value : Bytes) {p : Publish} → parse_numbers value ≡ some p → IsPort p
unfolding parse_numbers
parse_numbers-IsPort value {p} h =
    let ((address, r1), e1, h1) = >>=-eq-some (scan_unsigned value) _ {b = p} h in
    let ((host, r2), e2, h2) = >>=-eq-some (next_number r1) _ {b = p} h1 in
    let ((container, r3), e3, h3) = >>=-eq-some (next_number r2) _ {b = p} h2 in
    let (last, e4, h4) =
      >>=-eq-some (next_number r3) (check_numbers address host container) {b = p} h3 in
    check_numbers-IsPort address host container last {p = p} h4

module _ (machine : Machine) where
  pub record IsBounded (o : ShimOptions) : Type 0 where
    pub limits :
        (o.user ≤ id_max)
        × (o.group ≤ id_max)
        × (o.memory_max ≤ u64_max)
        × (o.cpu_quota ≤ 102400000)
        × (o.pids_max ≤ pids_limit)
    pub environment : All (λ assignment. valid_environment assignment ≡ true) o.environment
    pub publishes : All IsPort o.publishes
    pub mounts : All (IsMount machine) o.mounts
    pub denies : All (λ name. seccomp_name_valid machine.seccomp name ≡ true) o.seccomp_denies

  cleared-IsBounded : IsBounded cleared
  cleared-IsBounded = record {
    limits = (omega arith, omega arith, omega arith, omega arith, omega arith);
    environment = tt;
    publishes = tt;
    mounts = tt;
    denies = tt;
  }

  apply_shim_key-IsBounded :
      (key : ShimKey) (value : Bytes) (o : ShimOptions) {next : ShimOptions}
      → IsBounded o
      → apply_shim_key machine key value o ≡ some next
      → IsBounded next
  unfolding apply_shim_key
  apply_shim_key-IsBounded id_key value o {next} s h = subst IsBounded (some_eq h) (record {
    limits = s.limits;
    environment = s.environment;
    publishes = s.publishes;
    mounts = s.mounts;
    denies = s.denies;
  })
  apply_shim_key-IsBounded rootfs_key value o {next} s h = subst IsBounded (some_eq h) (record {
    limits = s.limits;
    environment = s.environment;
    publishes = s.publishes;
    mounts = s.mounts;
    denies = s.denies;
  })
  apply_shim_key-IsBounded hostname_key value o {next} s h = subst IsBounded (some_eq h) (record {
    limits = s.limits;
    environment = s.environment;
    publishes = s.publishes;
    mounts = s.mounts;
    denies = s.denies;
  })
  apply_shim_key-IsBounded workdir_key value o {next} s h = subst IsBounded (some_eq h) (record {
    limits = s.limits;
    environment = s.environment;
    publishes = s.publishes;
    mounts = s.mounts;
    denies = s.denies;
  })
  apply_shim_key-IsBounded user_key value o {next} s h =
      let (ids, parsed, e) = >>=-eq-some (parse_user value) _ {b = next} h in
      let (user, group) = parse_user-le value {user = ids.0} {group = ids.1} parsed in
      subst IsBounded (some_eq e) (record {
        limits = (user, group, s.limits.2, s.limits.3, s.limits.4);
        environment = s.environment;
        publishes = s.publishes;
        mounts = s.mounts;
        denies = s.denies;
      })
  apply_shim_key-IsBounded env_key value o {next} s h =
      let (valid, e) =
        if_some (valid_environment value) (record o { environment = o.environment ++ (value ∷ []) })
          {next = next} h in
      subst IsBounded e (record {
        limits = s.limits;
        environment =
            All-append (λ a. valid_environment a ≡ true) o.environment (value ∷ []) s.environment
              (valid, tt);
        publishes = s.publishes;
        mounts = s.mounts;
        denies = s.denies;
      })
  apply_shim_key-IsBounded ready_key value o {next} s h =
      let (n, parsed, e) = >>=-eq-some (parse_descriptor value) _ {b = next} h in
      subst IsBounded (some_eq e) (record {
        limits = s.limits;
        environment = s.environment;
        publishes = s.publishes;
        mounts = s.mounts;
        denies = s.denies;
      })
  apply_shim_key-IsBounded memory_key value o {next} s h =
      let (n, parsed, e) = >>=-eq-some (parse_positive_u64 value u64_max) _ {b = next} h in
      subst IsBounded (some_eq e) (record {
        limits = (
          s.limits.0,
          s.limits.1,
          (parse_positive_u64_bounds value u64_max {n = n} parsed).1,
          s.limits.3,
          s.limits.4,
        );
        environment = s.environment;
        publishes = s.publishes;
        mounts = s.mounts;
        denies = s.denies;
      })
  apply_shim_key-IsBounded swap_key value o {next} s h =
      let (n, parsed, e) = >>=-eq-some (whole_number value) _ {b = next} h in
      subst IsBounded (some_eq e) (record {
        limits = s.limits;
        environment = s.environment;
        publishes = s.publishes;
        mounts = s.mounts;
        denies = s.denies;
      })
  apply_shim_key-IsBounded quota_key value o {next} s h =
      let (n, parsed, e) = >>=-eq-some (parse_positive_u64 value 102400000) _ {b = next} h in
      subst IsBounded (some_eq e) (record {
        limits = (
          s.limits.0,
          s.limits.1,
          s.limits.2,
          (parse_positive_u64_bounds value 102400000 {n = n} parsed).1,
          s.limits.4,
        );
        environment = s.environment;
        publishes = s.publishes;
        mounts = s.mounts;
        denies = s.denies;
      })
  apply_shim_key-IsBounded pids_key value o {next} s h =
      let (n, parsed, e) = >>=-eq-some (parse_positive_u64 value pids_limit) _ {b = next} h in
      subst IsBounded (some_eq e) (record {
        limits = (
          s.limits.0,
          s.limits.1,
          s.limits.2,
          s.limits.3,
          (parse_positive_u64_bounds value pids_limit {n = n} parsed).1,
        );
        environment = s.environment;
        publishes = s.publishes;
        mounts = s.mounts;
        denies = s.denies;
      })
  apply_shim_key-IsBounded network_key value o {next} s h =
      let (n, parsed, e) = >>=-eq-some (parse_network value) _ {b = next} h in
      subst IsBounded (some_eq e) (record {
        limits = s.limits;
        environment = s.environment;
        publishes = s.publishes;
        mounts = s.mounts;
        denies = s.denies;
      })
  apply_shim_key-IsBounded ipv4_key value o {next} s h =
      let (n, parsed, e) = >>=-eq-some (parse_ipv4 value) _ {b = next} h in
      subst IsBounded (some_eq e) (record {
        limits = s.limits;
        environment = s.environment;
        publishes = s.publishes;
        mounts = s.mounts;
        denies = s.denies;
      })
  apply_shim_key-IsBounded publish_key value o {next} s h =
      let (p, parsed, e) = >>=-eq-some (parse_numbers value) _ {b = next} h in
      subst IsBounded (some_eq e) (record {
        limits = s.limits;
        environment = s.environment;
        publishes =
            All-append IsPort o.publishes (p ∷ []) s.publishes
              (parse_numbers-IsPort value {p = p} parsed, tt);
        mounts = s.mounts;
        denies = s.denies;
      })
  apply_shim_key-IsBounded cap_add_key value o {next} s h =
      let (n, parsed, tested) = >>=-eq-some (capability_parse value) _ {b = next} h in
      let (small, e) =
        unless_some (leb 64 n) (record o { capability_mask = set_bit o.capability_mask n })
          {next = next} tested in
      subst IsBounded e (record {
        limits = s.limits;
        environment = s.environment;
        publishes = s.publishes;
        mounts = s.mounts;
        denies = s.denies;
      })
  apply_shim_key-IsBounded bind_key value o {next} s h =
      let (m, parsed, e) = >>=-eq-some (parse_bind_mount machine.host value) _ {b = next} h in
      subst IsBounded (some_eq e) (record {
        limits = s.limits;
        environment = s.environment;
        publishes = s.publishes;
        mounts =
            All-append (IsMount machine) o.mounts (m ∷ []) s.mounts
              (inl (parse_bind_mount-IsBind machine.host value {m = m} parsed).0, tt);
        denies = s.denies;
      })
  apply_shim_key-IsBounded tmpfs_key value o {next} s h =
      let (m, parsed, e) = >>=-eq-some (parse_tmpfs_mount value) _ {b = next} h in
      subst IsBounded (some_eq e) (record {
        limits = s.limits;
        environment = s.environment;
        publishes = s.publishes;
        mounts =
            All-append (IsMount machine) o.mounts (m ∷ []) s.mounts
              (inr (parse_tmpfs_mount_bounds value {m = m} parsed), tt);
        denies = s.denies;
      })
  apply_shim_key-IsBounded deny_key value o {next} s h =
      let (valid, e) =
        if_some (seccomp_name_valid machine.seccomp value)
          (record o { seccomp_denies = o.seccomp_denies ++ (value ∷ []) }) {next = next} h in
      subst IsBounded e (record {
        limits = s.limits;
        environment = s.environment;
        publishes = s.publishes;
        mounts = s.mounts;
        denies =
            All-append (λ a. seccomp_name_valid machine.seccomp a ≡ true) o.seccomp_denies
              (value ∷ []) s.denies (valid, tt);
      })

  shim_flag-IsBounded :
      (argument : Bytes) (o : ShimOptions) {next : ShimOptions}
      → IsBounded o
      → shim_flag machine argument o ≡ some next
      → IsBounded next
  shim_flag-IsBounded argument o {next} s h =
      go (str_eq argument (codes "--detach")) (str_eq argument (codes "--read-only")) h
    where
      go :
          (a b : Bool)
          → (if a
              then some (record o { detach = true })
              else if b
              then some (record o { readonly_root = true })
              else none)
            ≡ some next
          → IsBounded next
      go true b e = subst IsBounded (some_eq e) (record {
        limits = s.limits;
        environment = s.environment;
        publishes = s.publishes;
        mounts = s.mounts;
        denies = s.denies;
      })
      go false true e = subst IsBounded (some_eq e) (record {
        limits = s.limits;
        environment = s.environment;
        publishes = s.publishes;
        mounts = s.mounts;
        denies = s.denies;
      })
      go false false e = cc

  -- What a round with two arguments or more has done.
  abbrev Turn : Bytes → Bytes → List Bytes → ShimOptions → ShimOptions × List Bytes → Type 0
  Turn argument value rest o r =
      (o ≡ r.0)
      ⊎ ((next : ShimOptions) × (shim_flag machine argument o ≡ some next)
          × (shim_loop machine (value ∷ rest) next ≡ some r))
      ⊎ ((key : ShimKey) × (next : ShimOptions) × (apply_shim_key machine key value o ≡ some next)
          × (shim_loop machine rest next ≡ some r))

  Turn-shim_loop :
      (argument value : Bytes) (rest : List Bytes) (o : ShimOptions) {r : ShimOptions × List Bytes}
      → shim_loop machine (argument ∷ value ∷ rest) o ≡ some r
      → Turn argument value rest o r
  unfolding shim_loop
  Turn-shim_loop argument value rest o {r} h =
      go (str_eq argument (codes "--")) (shim_flag machine argument o) refl h
    where
      go :
          (b : Bool) (f : Option ShimOptions)
          → shim_flag machine argument o ≡ f
          → (elim b as (λ _. Option (ShimOptions × List Bytes)) [
            | true ↦ some (o, value ∷ rest)
            | false ↦ elim f [
              | some next ↦ shim_loop machine (value ∷ rest) next
              | none ↦
                  (shim_key_of argument >>= λ key. apply_shim_key machine key value o) >>= λ next.
                  shim_loop machine rest next
            ]
          ])
            ≡ some r
          → Turn argument value rest o r
      go true f q e = inl (ap (λ t. t.0) (some_pair_eq e))
      go false (some next) q e = inr (inl (next, q, e))
      go false none q e =
          let (next, stepped, later) =
            >>=-eq-some (shim_key_of argument >>= λ key. apply_shim_key machine key value o) _
              {b = r} e in
          let (key, found, applied) = >>=-eq-some (shim_key_of argument) _ {b = next} stepped in
          inr (inr (key, next, applied, later))

  shim_loop-IsBounded :
      (arguments : List Bytes) (o : ShimOptions) {r : ShimOptions × List Bytes}
      → IsBounded o
      → shim_loop machine arguments o ≡ some r
      → IsBounded r.0
  unfolding shim_loop
  shim_loop-IsBounded [] o {r} s h = cc
  shim_loop-IsBounded (argument ∷ []) o {r} s h = cc
  shim_loop-IsBounded (argument ∷ value ∷ rest) o {r} s h =
      elim (Turn-shim_loop argument value rest o {r = r} h) [
        | inl same ↦ subst IsBounded same s
        | inr (inl (next, flagged, later)) ↦
            shim_loop-IsBounded (value ∷ rest) next {r = r}
              (shim_flag-IsBounded argument o {next = next} s flagged) later
        | inr (inr (key, next, applied, later)) ↦
            shim_loop-IsBounded rest next {r = r}
              (apply_shim_key-IsBounded key value o {next = next} s applied) later
      ]

  check_shim-eq-some :
      (o : ShimOptions) (command : List Bytes) {r : ShimOptions × List Bytes}
      → check_shim machine (o, command) ≡ some r
      → (o ≡ r.0)
        × (is_absolute machine o.workdir ≡ true)
        × (0 < o.memory_max)
        × (0 < o.cpu_quota)
        × (0 < o.pids_max)
  check_shim-eq-some o command {r} h =
      let (tests, same) =
        if_pair
          (is_some o.id
            && is_some o.rootfs
            && is_some o.hostname
            && is_absolute machine o.workdir
            && not (o.detach && not (is_some o.ready_fd))
            && not (o.memory_max == 0)
            && not (o.cpu_quota == 0)
            && not (o.pids_max == 0))
          (o, command) {r = r} h in
      (ap (λ t. t.0) same, ground arith, ground arith, ground arith, ground arith)

  -- What the shim runs has an absolute working directory, a memory limit, a cpu quota and a limit of
  -- processes that are positive and within their maxima, 16-bit ids, valid assignments, ports and
  -- protocols in range, sound mounts, and denied system calls that libseccomp knows.
  pub parse_shim-IsBounded :
      (arguments : List Bytes) {o : ShimOptions} {command : List Bytes}
      → parse_shim machine arguments ≡ some (o, command)
      → IsBounded o
        × (is_absolute machine o.workdir ≡ true)
        × (0 < o.memory_max)
        × (0 < o.cpu_quota)
        × (0 < o.pids_max)
  unfolding parse_shim
  parse_shim-IsBounded arguments {o} {command} h =
      let ((last, behind), looped, checked) =
        >>=-eq-some (shim_loop machine arguments cleared) (check_shim machine) {b = (o, command)}
          h in
      let (same, absolute, memory, quota, pids) =
        check_shim-eq-some last behind {r = (o, command)} checked in
      (
        subst IsBounded same
            (shim_loop-IsBounded arguments cleared {r = (last, behind)} cleared-IsBounded looped),
        subst (λ t. is_absolute machine t.workdir ≡ true) same absolute,
        subst (λ t. 0 < t.memory_max) same memory,
        subst (λ t. 0 < t.cpu_quota) same quota,
        subst (λ t. 0 < t.pids_max) same pids,
      )

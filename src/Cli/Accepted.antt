-- ===== src/Cli/Accepted.antt =====
-- cli/main.c: what holds of the options of every container that `run` and `create` accept.
use minicontainer.Base.{
  ℕ, ◌≤◌, ◌<◌, ◌≡◌, ◌≢◌, ◌⊎◌, inl, inr, refl, ap, Bool, true, false, not, ◌&&◌, ◌||◌, Option, none,
  some, List, [], ◌∷◌, ◌++◌, arith, Bytes, codes, length, All, leb, ltb, if◌then◌else◌, ◌>>=◌,
  is_some, any, str_eq, All-append, >>=-eq-some, subst,
}
use minicontainer.Base.Number.{u64_max}
use minicontainer.Validate.Name.{valid_name}
use minicontainer.Validate.Path.{starts_slash}
use minicontainer.Validate.Environment.{valid_environment}
use minicontainer.Validate.User.{id_max, parse_user, parse_user-le}
use minicontainer.Resource.{parse_bytes, parse_cpu_quota, parse_positive_u64}
use minicontainer.Resource.Sizes.{parse_bytes-exact, parse_positive_u64_bounds}
use minicontainer.Resource.Quota.{parse_cpu_quota_bounds}
use minicontainer.Network.{Publish, parse_publish, clashes}
use minicontainer.Network.Bounds.{IsPublish, parse_publish-IsPublish}
use minicontainer.Mount.{Mount, tmpfs, tmpfs_max, valid_target, parse_bind_mount, parse_tmpfs_mount}
use minicontainer.Mount.Specs.{IsBind, parse_bind_mount-IsBind, parse_tmpfs_mount_bounds}
use minicontainer.Security.{seccomp_name_valid, seccomp_profile_load, capability_parse}
use minicontainer.Security.Profile.{IsFresh, seccomp_profile_load_sound}
use minicontainer.Cli.{
  set_bit, parse_network, Options, default_options, Key, name_key, image_key, hostname_key,
  workdir_key, user_key, env_key, memory_key, swap_key, cpus_key, pids_key, network_key,
  publish_key, cap_add_key, bind_key, tmpfs_key, profile_key, key_of, pids_limit, parse_swap,
  Machine, apply_key, apply_flag, option_loop, accept_options, parse_run,
}

-- No two publications of the list clash.
abbrev pub IsSeparate : List Publish → Type 0
IsSeparate [] = Unit
IsSeparate (p ∷ ps) = All (λ q. clashes p q ≡ false) ps × IsSeparate ps

IsSeparate-snoc :
    (ps : List Publish) (q : Publish)
    → any (λ p. clashes p q) ps ≡ false
    → IsSeparate ps
    → IsSeparate (ps ++ (q ∷ []))
IsSeparate-snoc [] q apart h = (tt, tt)
IsSeparate-snoc (p ∷ ps) q apart h =
    let (first, others) : (clashes p q ≡ false) × (any (λ p. clashes p q) ps ≡ false) =
      split (clashes p q) (any (λ p. clashes p q) ps) apart in
    (
      All-append (λ r. clashes p r ≡ false) ps (q ∷ []) h.0 (first, tt),
      IsSeparate-snoc ps q others h.1,
    )
  where
    split : (a b : Bool) → (a || b) ≡ false → (a ≡ false) × (b ≡ false)
    split a b e = ground arith

some_eq : {a b : Options} → some a ≡ some b → a ≡ b
some_eq e = cc

some_pair_eq : {a b : Options × Option (List Bytes)} → some a ≡ some b → a ≡ b
some_pair_eq e = cc

some_accepted_eq : {a b : Options × List Bytes} → some a ≡ some b → a ≡ b
some_accepted_eq e = cc

some_bytes_eq : {a b : Bytes} → some a ≡ some b → a ≡ b
some_bytes_eq e = cc

some_list_eq : {a b : List Bytes} → some a ≡ some b → a ≡ b
some_list_eq e = cc

not_again :
    (b : Bool) (m : Option Options) {next : Options}
    → (if b then none else m) ≡ some next
    → m ≡ some next
not_again true m e = cc
not_again false m e = e

if_some :
    (b : Bool) (o : Options) {next : Options}
    → (if b then some o else none) ≡ some next
    → (b ≡ true) × (o ≡ next)
if_some true o e = (refl, some_eq e)
if_some false o e = cc

unless_some :
    (b : Bool) (o : Options) {next : Options}
    → (if b then none else some o) ≡ some next
    → (b ≡ false) × (o ≡ next)
unless_some true o e = cc
unless_some false o e = (refl, some_eq e)

parse_swap_le : (value : Bytes) {n : ℕ} → parse_swap value ≡ some n → n ≤ u64_max
parse_swap_le value {n} h = go (str_eq value (codes "0")) h
  where
    go : (b : Bool) → (if b then some 0 else parse_bytes value) ≡ some n → n ≤ u64_max
    go true e = ground arith
    go false e = let (m, unit, exact, pos, fits) = parse_bytes-exact value {bytes = n} e in fits

module _ (machine : Machine) where
  abbrev pub IsMount : Mount → Type 0
  IsMount m =
      IsBind machine.host m
      ⊎ ((m.type ≡ tmpfs) × (0 < m.size) × (m.size ≤ tmpfs_max) × (valid_target m.target ≡ true))

  abbrev pub IsDenied : List Bytes → Type 0
  IsDenied denies =
      (length denies ≤ 128)
      × All (λ name. seccomp_name_valid machine.seccomp name ≡ true) denies
      × IsFresh [] denies

  abbrev pub IsNamed : Options → Type 0
  IsNamed o =
      ((name : Bytes) → o.name ≡ some name → valid_name name ≡ true)
      × (starts_slash o.workdir ≡ true)
      × (o.user ≤ id_max)
      × (o.group ≤ id_max)

  abbrev pub IsLimited : Options → Type 0
  IsLimited o =
      ((0 < o.memory_max) × (o.memory_max ≤ u64_max))
      × (o.swap_max ≤ u64_max)
      × ((0 < o.cpu_quota) × (o.cpu_quota ≤ 102400000))
      × ((0 < o.pids_max) × (o.pids_max ≤ pids_limit))

  -- What the validators promise of each value that is given, and what the defaults satisfy.
  pub record IsSound (o : Options) : Type 0 where
    pub named : IsNamed o
    pub limited : IsLimited o
    pub environment : All (λ assignment. valid_environment assignment ≡ true) o.environment
    pub publishes : All IsPublish o.publishes × IsSeparate o.publishes
    pub mounts : All IsMount o.mounts
    pub denies : (denies : List Bytes) → o.seccomp_denies ≡ some denies → IsDenied denies

  default-IsSound : IsSound default_options
  default-IsSound = record {
    named = (λ name e. cc, refl, omega arith, omega arith);
    limited = (
      (omega arith, omega arith),
      omega arith,
      (omega arith, omega arith),
      (omega arith, omega arith),
    );
    environment = tt;
    publishes = (tt, tt);
    mounts = tt;
    denies = λ denies e. cc;
  }

  apply_key-IsSound :
      (key : Key) (value : Bytes) (o : Options) {next : Options}
      → IsSound o
      → apply_key machine key value o ≡ some next
      → IsSound next
  unfolding apply_key
  apply_key-IsSound name_key value o {next} s h =
      let (valid, e) =
        if_some (valid_name value) (record o { name = some value }) {next = next} h in
      subst IsSound e (record {
        named = (
          λ name q. subst (λ n. valid_name n ≡ true) (some_bytes_eq q) valid,
          s.named.1,
          s.named.2,
          s.named.3,
        );
        limited = s.limited;
        environment = s.environment;
        publishes = s.publishes;
        mounts = s.mounts;
        denies = s.denies;
      })
  apply_key-IsSound image_key value o {next} s h = subst IsSound (some_eq h) (record {
    named = s.named;
    limited = s.limited;
    environment = s.environment;
    publishes = s.publishes;
    mounts = s.mounts;
    denies = s.denies;
  })
  apply_key-IsSound hostname_key value o {next} s h = subst IsSound (some_eq h) (record {
    named = s.named;
    limited = s.limited;
    environment = s.environment;
    publishes = s.publishes;
    mounts = s.mounts;
    denies = s.denies;
  })
  apply_key-IsSound workdir_key value o {next} s h =
      let (valid, e) =
        if_some (starts_slash value) (record o { workdir = value }) {next = next} h in
      subst IsSound e (record {
        named = (s.named.0, valid, s.named.2, s.named.3);
        limited = s.limited;
        environment = s.environment;
        publishes = s.publishes;
        mounts = s.mounts;
        denies = s.denies;
      })
  apply_key-IsSound user_key value o {next} s h =
      let (ids, parsed, e) = >>=-eq-some (parse_user value) _ {b = next} h in
      let (user, group) = parse_user-le value {user = ids.0} {group = ids.1} parsed in
      subst IsSound (some_eq e) (record {
        named = (s.named.0, s.named.1, user, group);
        limited = s.limited;
        environment = s.environment;
        publishes = s.publishes;
        mounts = s.mounts;
        denies = s.denies;
      })
  apply_key-IsSound env_key value o {next} s h =
      let (valid, e) =
        if_some (valid_environment value) (record o { environment = o.environment ++ (value ∷ []) })
          {next = next} h in
      subst IsSound e (record {
        named = s.named;
        limited = s.limited;
        environment =
            All-append (λ a. valid_environment a ≡ true) o.environment (value ∷ []) s.environment
              (valid, tt);
        publishes = s.publishes;
        mounts = s.mounts;
        denies = s.denies;
      })
  apply_key-IsSound memory_key value o {next} s h =
      let (n, parsed, e) = >>=-eq-some (parse_bytes value) _ {b = next} h in
      let (m, unit, exact, pos, fits) = parse_bytes-exact value {bytes = n} parsed in
      subst IsSound (some_eq e) (record {
        named = s.named;
        limited = ((pos, fits), s.limited.1, s.limited.2, s.limited.3);
        environment = s.environment;
        publishes = s.publishes;
        mounts = s.mounts;
        denies = s.denies;
      })
  apply_key-IsSound swap_key value o {next} s h =
      let (n, parsed, e) = >>=-eq-some (parse_swap value) _ {b = next} h in
      subst IsSound (some_eq e) (record {
        named = s.named;
        limited = (s.limited.0, parse_swap_le value {n = n} parsed, s.limited.2, s.limited.3);
        environment = s.environment;
        publishes = s.publishes;
        mounts = s.mounts;
        denies = s.denies;
      })
  apply_key-IsSound cpus_key value o {next} s h =
      let (n, parsed, e) = >>=-eq-some (parse_cpu_quota value) _ {b = next} h in
      subst IsSound (some_eq e) (record {
        named = s.named;
        limited =
            (s.limited.0, s.limited.1, parse_cpu_quota_bounds value {q = n} parsed, s.limited.3);
        environment = s.environment;
        publishes = s.publishes;
        mounts = s.mounts;
        denies = s.denies;
      })
  apply_key-IsSound pids_key value o {next} s h =
      let (n, parsed, e) = >>=-eq-some (parse_positive_u64 value pids_limit) _ {b = next} h in
      subst IsSound (some_eq e) (record {
        named = s.named;
        limited = (
          s.limited.0,
          s.limited.1,
          s.limited.2,
          parse_positive_u64_bounds value pids_limit {n = n} parsed,
        );
        environment = s.environment;
        publishes = s.publishes;
        mounts = s.mounts;
        denies = s.denies;
      })
  apply_key-IsSound network_key value o {next} s h =
      let (n, parsed, e) = >>=-eq-some (parse_network value) _ {b = next} h in
      subst IsSound (some_eq e) (record {
        named = s.named;
        limited = s.limited;
        environment = s.environment;
        publishes = s.publishes;
        mounts = s.mounts;
        denies = s.denies;
      })
  apply_key-IsSound publish_key value o {next} s h =
      let (p, parsed, tested) = >>=-eq-some (parse_publish value) _ {b = next} h in
      let (apart, e) =
        unless_some (any (λ existing. clashes existing p) o.publishes)
          (record o { publishes = o.publishes ++ (p ∷ []) }) {next = next} tested in
      subst IsSound e (record {
        named = s.named;
        limited = s.limited;
        environment = s.environment;
        publishes = (
          All-append IsPublish o.publishes (p ∷ []) s.publishes.0
              (parse_publish-IsPublish value {p = p} parsed, tt),
          IsSeparate-snoc o.publishes p apart s.publishes.1,
        );
        mounts = s.mounts;
        denies = s.denies;
      })
  apply_key-IsSound cap_add_key value o {next} s h =
      let (n, parsed, tested) = >>=-eq-some (capability_parse value) _ {b = next} h in
      let (small, e) =
        unless_some (leb 64 n) (record o { capability_mask = set_bit o.capability_mask n })
          {next = next} tested in
      subst IsSound e (record {
        named = s.named;
        limited = s.limited;
        environment = s.environment;
        publishes = s.publishes;
        mounts = s.mounts;
        denies = s.denies;
      })
  apply_key-IsSound bind_key value o {next} s h =
      let (m, parsed, e) = >>=-eq-some (parse_bind_mount machine.host value) _ {b = next} h in
      subst IsSound (some_eq e) (record {
        named = s.named;
        limited = s.limited;
        environment = s.environment;
        publishes = s.publishes;
        mounts =
            All-append IsMount o.mounts (m ∷ []) s.mounts
              (inl (parse_bind_mount-IsBind machine.host value {m = m} parsed).0, tt);
        denies = s.denies;
      })
  apply_key-IsSound tmpfs_key value o {next} s h =
      let (m, parsed, e) = >>=-eq-some (parse_tmpfs_mount value) _ {b = next} h in
      subst IsSound (some_eq e) (record {
        named = s.named;
        limited = s.limited;
        environment = s.environment;
        publishes = s.publishes;
        mounts =
            All-append IsMount o.mounts (m ∷ []) s.mounts
              (inr (parse_tmpfs_mount_bounds value {m = m} parsed), tt);
        denies = s.denies;
      })
  apply_key-IsSound profile_key value o {next} s h =
      let tested = not_again (is_some o.seccomp_denies) _ {next = next} h in
      let (denies, loaded, e) =
        >>=-eq-some (seccomp_profile_load machine.seccomp value (machine.profile_at value)) _
          {b = next} tested in
      let (trusted, version, listed, few, valid, fresh) =
        seccomp_profile_load_sound machine.seccomp value (machine.profile_at value)
          {denies = denies} loaded in
      subst IsSound (some_eq e) (record {
        named = s.named;
        limited = s.limited;
        environment = s.environment;
        publishes = s.publishes;
        mounts = s.mounts;
        denies = λ others q. subst IsDenied (some_list_eq q) (few, valid, fresh);
      })

  apply_flag-IsSound :
      (argument : Bytes) (o : Options) {next : Options}
      → IsSound o
      → apply_flag machine argument o ≡ some next
      → IsSound next
  unfolding apply_flag
  apply_flag-IsSound argument o {next} s h =
      go (str_eq argument (codes "--detach")) (str_eq argument (codes "--read-only")) h
    where
      go :
          (a b : Bool)
          → (if a
              then some (record o { detach = true })
              else if b
              then some (record o { readonly_root = true })
              else none)
            ≡ some next
          → IsSound next
      go true b e = subst IsSound (some_eq e) (record {
        named = s.named;
        limited = s.limited;
        environment = s.environment;
        publishes = s.publishes;
        mounts = s.mounts;
        denies = s.denies;
      })
      go false true e = subst IsSound (some_eq e) (record {
        named = s.named;
        limited = s.limited;
        environment = s.environment;
        publishes = s.publishes;
        mounts = s.mounts;
        denies = s.denies;
      })
      go false false e = cc

  -- What a round with two arguments or more has done.
  abbrev Round : Bytes → Bytes → List Bytes → Options → Options × Option (List Bytes) → Type 0
  Round argument value rest o r =
      (o ≡ r.0)
      ⊎ ((next : Options) × (apply_flag machine argument o ≡ some next)
          × (option_loop machine (value ∷ rest) next ≡ some r))
      ⊎ ((key : Key) × (next : Options) × (apply_key machine key value o ≡ some next)
          × (option_loop machine rest next ≡ some r))

  Round-option_loop :
      (argument value : Bytes) (rest : List Bytes) (o : Options) {r : Options × Option (List Bytes)}
      → option_loop machine (argument ∷ value ∷ rest) o ≡ some r
      → Round argument value rest o r
  unfolding option_loop
  Round-option_loop argument value rest o {r} h =
      go (str_eq argument (codes "--")) (apply_flag machine argument o) refl h
    where
      go :
          (b : Bool) (f : Option Options)
          → apply_flag machine argument o ≡ f
          → (elim b as (λ _. Option (Options × Option (List Bytes))) [
            | true ↦ some (o, some (value ∷ rest))
            | false ↦ elim f [
              | some next ↦ option_loop machine (value ∷ rest) next
              | none ↦ (key_of argument >>= λ key. apply_key machine key value o) >>= λ next.
                  option_loop machine rest next
            ]
          ])
            ≡ some r
          → Round argument value rest o r
      go true f q e = inl (ap (λ t. t.0) (some_pair_eq e))
      go false (some next) q e = inr (inl (next, q, e))
      go false none q e =
          let (next, stepped, later) =
            >>=-eq-some (key_of argument >>= λ key. apply_key machine key value o) _ {b = r} e in
          let (key, found, applied) = >>=-eq-some (key_of argument) _ {b = next} stepped in
          inr (inr (key, next, applied, later))

  option_loop-IsSound :
      (arguments : List Bytes) (o : Options) {final : Options} {command : Option (List Bytes)}
      → IsSound o
      → option_loop machine arguments o ≡ some (final, command)
      → IsSound final
  unfolding option_loop
  option_loop-IsSound [] o {final} {command} s h = subst IsSound (ap (λ r. r.0) (some_pair_eq h)) s
  option_loop-IsSound (argument ∷ []) o {final} {command} s h = one (str_eq argument (codes "--")) h
    where
      one :
          (b : Bool)
          → (if◌then◌else◌ {A = Option (Options × Option (List Bytes))} b
              (some (o, some []))
              (apply_flag machine argument o >>= λ next. some (next, none)))
            ≡ some (final, command)
          → IsSound final
      one true e = subst IsSound (ap (λ r. r.0) (some_pair_eq e)) s
      one false e =
          let (next, flagged, last) =
            >>=-eq-some (apply_flag machine argument o) _ {b = (final, command)} e in
          subst IsSound (ap (λ r. r.0) (some_pair_eq last))
            (apply_flag-IsSound argument o {next = next} s flagged)
  option_loop-IsSound (argument ∷ value ∷ rest) o {final} {command} s h =
      elim (Round-option_loop argument value rest o {r = (final, command)} h) [
        | inl same ↦ subst IsSound same s
        | inr (inl (next, flagged, later)) ↦
            option_loop-IsSound (value ∷ rest) next {final = final} {command = command}
              (apply_flag-IsSound argument o {next = next} s flagged) later
        | inr (inr (key, next, applied, later)) ↦
            option_loop-IsSound rest next {final = final} {command = command}
              (apply_key-IsSound key value o {next = next} s applied) later
      ]

  given : (image : Option Bytes) → is_some image ≡ true → image ≢ none
  given none e q = cc
  given (some image) e q = cc

  no_member : (publishes : List Publish) → ltb 0 (length publishes) ≡ false → publishes ≡ []
  no_member [] e = refl
  no_member (p ∷ publishes) e = ground arith

  accept_tests :
      (image bridge some_port : Bool) (accepted : Options × List Bytes) {r : Options × List Bytes}
      → (if not image then none else if not bridge && some_port then none else some accepted)
        ≡ some r
      → (image ≡ true) × ((bridge ≡ true) ⊎ (some_port ≡ false)) × (accepted ≡ r)
  accept_tests false bridge port accepted e = cc
  accept_tests true true port accepted e = (refl, inl refl, some_accepted_eq e)
  accept_tests true false true accepted e = cc
  accept_tests true false false accepted e = (refl, inr refl, some_accepted_eq e)

  accept-IsSound :
      (o : Options) (command : Option (List Bytes)) {final : Options} {arguments : List Bytes}
      → accept_options machine (o, command) ≡ some (final, arguments)
      → (o ≡ final)
        × (0 < length arguments)
        × (o.image ≢ none)
        × ((o.network_bridge ≡ true) ⊎ (o.publishes ≡ []))
  unfolding accept_options
  accept-IsSound o none h = cc
  accept-IsSound o (some []) h = cc
  accept-IsSound o (some (program ∷ rest)) {final} {arguments} h =
      let (image, network, same) =
        accept_tests (is_some o.image) o.network_bridge (ltb 0 (length o.publishes))
          (o, program ∷ rest) {r = (final, arguments)} h in
      (
        ap (λ r. r.0) same,
        subst (λ c. 0 < length c) (ap (λ r. r.1) same) (omega arith),
        given o.image image,
        elim network [ inl bridge ↦ inl bridge | inr few ↦ inr (no_member o.publishes few) ],
      )

  -- Whatever `run` or `create` accepts has an image and a command, and options that satisfy what each
  -- of the validators promises: a valid name, an absolute working directory, 16-bit ids, limits that
  -- are positive and within their maxima (a swap limit may be 0), valid assignments, publications in
  -- range of which no two clash, and none without the bridge, mounts that are sound, and at most 128
  -- different denied system calls, each known to libseccomp.
  pub parse_run-IsSound :
      (arguments : List Bytes) {o : Options} {command : List Bytes}
      → parse_run machine arguments ≡ some (o, command)
      → IsSound o
        × (0 < length command)
        × (o.image ≢ none)
        × ((o.network_bridge ≡ true) ⊎ (o.publishes ≡ []))
  unfolding parse_run
  parse_run-IsSound arguments {o} {command} h =
      let ((last, behind), looped, accepted) =
        >>=-eq-some (option_loop machine arguments default_options) (accept_options machine)
          {b = (o, command)} h in
      let (same, some_command, image, network) =
        accept-IsSound last behind {final = o} {arguments = command} accepted in
      (
        subst IsSound same (
            option_loop-IsSound arguments default_options {final = last} {command = behind}
              default-IsSound looped),
        some_command,
        subst (λ t. t.image ≢ none) same image,
        subst (λ t. (t.network_bridge ≡ true) ⊎ (t.publishes ≡ [])) same network,
      )

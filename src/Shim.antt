-- ===== src/Shim.antt =====
-- runtime/shim_main.c: the option loop of main and the tests after it. The log pump that main starts
-- is modelled in Log, and the container that it runs in Linux/Run.
pub mod Accepted
use minicontainer.Base.{
  ℕ, zero, suc, ◌+◌, ◌-◌, ◌*◌, ◌/◌, ◌%◌, ◌^◌, ◌≤◌, ◌<◌, ◌≡◌, ◌≢◌, ◌↔◌, ◌⊎◌, inl, inr, refl, sym, ap,
  ◌∙◌, Bool, true, false, not, ◌&&◌, ◌||◌, Option, none, some, List, [], ◌∷◌, ◌++◌, map, arith,
  Bytes, codes, length, All, ◌==◌, leb, ltb, if◌then◌else◌, ◌>>=◌, ◌>>◌, guard, is_some, Bool-cases,
  Option-cases,
}
use minicontainer.Base.{str_eq}
use minicontainer.Base.Number.{strtoull, skip_space}
use minicontainer.Validate.Path.{starts_slash}
use minicontainer.Validate.Environment.{valid_environment}
use minicontainer.Validate.User.{parse_user}
use minicontainer.Resource.{is_nil, starts_minus, parse_positive_u64}
use minicontainer.Base.Number.{u64_max}
use minicontainer.Network.{Publish, tcp, udp, scan_unsigned, scan_literal}
use minicontainer.Mount.{Mount, parse_bind_mount, parse_tmpfs_mount}
use minicontainer.Security.{capability_parse, seccomp_name_valid}
use minicontainer.Cli.{Machine, set_bit, pids_limit, parse_network}

-- The fields of mc_run_config that the loop sets; a pointer may be NULL, and the descriptor -1.
pub record ShimOptions : Type 0 where
  pub id : Option Bytes
  pub rootfs : Option Bytes
  pub hostname : Option Bytes
  pub workdir : Option Bytes
  pub ready_fd : Option ℕ
  pub environment : List Bytes
  pub publishes : List Publish
  pub mounts : List Mount
  pub seccomp_denies : List Bytes
  pub user : ℕ
  pub group : ℕ
  pub detach : Bool
  pub memory_max : ℕ
  pub swap_max : ℕ
  pub cpu_quota : ℕ
  pub pids_max : ℕ
  pub capability_mask : ℕ
  pub readonly_root : Bool
  pub network_bridge : Bool
  pub ipv4_host : ℕ

abbrev pub cleared : ShimOptions
cleared = record {
  id = none;
  rootfs = none;
  hostname = none;
  workdir = none;
  ready_fd = none;
  environment = [];
  publishes = [];
  mounts = [];
  seccomp_denies = [];
  user = 0;
  group = 0;
  detach = false;
  memory_max = 0;
  swap_max = 0;
  cpu_quota = 0;
  pids_max = 0;
  capability_mask = 0;
  readonly_root = false;
  network_bridge = false;
  ipv4_host = 0;
}

pub data ShimKey : Type 0 where
  id_key rootfs_key hostname_key workdir_key user_key env_key ready_key memory_key : ShimKey
  swap_key quota_key pids_key network_key ipv4_key publish_key cap_add_key : ShimKey
  bind_key tmpfs_key deny_key : ShimKey

unfoldable pub shim_key_of : Bytes → Option ShimKey
shim_key_of argument =
    if str_eq argument (codes "--id")
    then some id_key
    else if str_eq argument (codes "--rootfs")
    then some rootfs_key
    else if str_eq argument (codes "--hostname")
    then some hostname_key
    else if str_eq argument (codes "--workdir")
    then some workdir_key
    else if str_eq argument (codes "--user")
    then some user_key
    else if str_eq argument (codes "--env")
    then some env_key
    else if str_eq argument (codes "--ready-fd")
    then some ready_key
    else if str_eq argument (codes "--memory")
    then some memory_key
    else if str_eq argument (codes "--memory-swap")
    then some swap_key
    else if str_eq argument (codes "--cpu-quota")
    then some quota_key
    else if str_eq argument (codes "--pids-limit")
    then some pids_key
    else if str_eq argument (codes "--network")
    then some network_key
    else if str_eq argument (codes "--ipv4-host")
    then some ipv4_key
    else if str_eq argument (codes "--publish")
    then some publish_key
    else if str_eq argument (codes "--cap-add")
    then some cap_add_key
    else if str_eq argument (codes "--bind")
    then some bind_key
    else if str_eq argument (codes "--tmpfs")
    then some tmpfs_key
    else if str_eq argument (codes "--seccomp-deny")
    then some deny_key
    else none

-- strtoull or strtoul, on a text that it must read to its end.
abbrev pub whole_number : Bytes → Option ℕ
whole_number value =
    let p = strtoull value in
    if p.range || not p.moved || not (is_nil p.rest) then none else some p.value

-- strtol reads a signed number: behind a minus sign only 0 is not negative.
abbrev pub parse_descriptor : Bytes → Option ℕ
parse_descriptor value = whole_number value >>= λ n.
    if starts_minus (skip_space value) && not (n == 0) || ltb 1048576 n then none else some n

abbrev pub parse_ipv4 : Bytes → Option ℕ
parse_ipv4 value = whole_number value >>= λ n. if ltb 0xffffffff n then none else some n

abbrev pub next_number : Bytes → Option (ℕ × Bytes)
next_number value = scan_literal b',' value >>= scan_unsigned

abbrev pub check_numbers : ℕ → ℕ → ℕ → ℕ × Bytes → Option Publish
check_numbers address host container (protocol, rest) =
    if not (is_nil rest)
      || host == 0
      || ltb 65535 host
      || container == 0
      || ltb 65535 container
      || not (protocol == tcp || protocol == udp)
    then none
    else some (record {
      host_ipv4 = address;
      host_port = host;
      container_port = container;
      protocol = protocol;
    })

-- sscanf with "%u,%u,%u,%u%c"
unfoldable pub parse_numbers : Bytes → Option Publish
parse_numbers value = scan_unsigned value >>= λ (address, r1). next_number r1 >>= λ (host, r2).
    next_number r2 >>= λ (container, r3). next_number r3 >>= check_numbers address host container

module _ (machine : Machine) where
  -- One branch with its argument; `none` where it leaves the loop, so that no command is found.
  unfoldable pub apply_shim_key : ShimKey → Bytes → ShimOptions → Option ShimOptions
  apply_shim_key id_key value o = some (record o { id = some value })
  apply_shim_key rootfs_key value o = some (record o { rootfs = some value })
  apply_shim_key hostname_key value o = some (record o { hostname = some value })
  apply_shim_key workdir_key value o = some (record o { workdir = some value })
  apply_shim_key user_key value o =
      parse_user value >>= λ ids. some (record o { user = ids.0; group = ids.1 })
  apply_shim_key env_key value o =
      if valid_environment value
      then some (record o { environment = o.environment ++ (value ∷ []) })
      else none
  apply_shim_key ready_key value o =
      parse_descriptor value >>= λ n. some (record o { ready_fd = some n })
  apply_shim_key memory_key value o =
      parse_positive_u64 value u64_max >>= λ n. some (record o { memory_max = n })
  apply_shim_key swap_key value o = whole_number value >>= λ n. some (record o { swap_max = n })
  apply_shim_key quota_key value o =
      parse_positive_u64 value 102400000 >>= λ n. some (record o { cpu_quota = n })
  apply_shim_key pids_key value o =
      parse_positive_u64 value pids_limit >>= λ n. some (record o { pids_max = n })
  apply_shim_key network_key value o =
      parse_network value >>= λ bridge. some (record o { network_bridge = bridge })
  apply_shim_key ipv4_key value o = parse_ipv4 value >>= λ n. some (record o { ipv4_host = n })
  apply_shim_key publish_key value o =
      parse_numbers value >>= λ p. some (record o { publishes = o.publishes ++ (p ∷ []) })
  apply_shim_key cap_add_key value o = capability_parse value >>= λ capability.
      if leb 64 capability
      then none
      else some (record o { capability_mask = set_bit o.capability_mask capability })
  apply_shim_key bind_key value o =
      parse_bind_mount machine.host value >>= λ m. some (record o { mounts = o.mounts ++ (m ∷ []) })
  apply_shim_key tmpfs_key value o =
      parse_tmpfs_mount value >>= λ m. some (record o { mounts = o.mounts ++ (m ∷ []) })
  apply_shim_key deny_key value o =
      if seccomp_name_valid machine.seccomp value
      then some (record o { seccomp_denies = o.seccomp_denies ++ (value ∷ []) })
      else none

  abbrev pub shim_flag : Bytes → ShimOptions → Option ShimOptions
  shim_flag argument o =
      if str_eq argument (codes "--detach")
      then some (record o { detach = true })
      else if str_eq argument (codes "--read-only")
      then some (record o { readonly_root = true })
      else none

  -- The loop: the options and the command behind "--"; `none` where there is no command.
  unfoldable pub shim_loop : List Bytes → ShimOptions → Option (ShimOptions × List Bytes)
  shim_loop [] o = none
  shim_loop (argument ∷ []) o = none
  shim_loop (argument ∷ value ∷ rest) o = elim (str_eq argument (codes "--")) [
    | true ↦ some (o, value ∷ rest)
    | false ↦ elim (shim_flag argument o) [
      | some next ↦ shim_loop (value ∷ rest) next
      | none ↦ (shim_key_of argument >>= λ key. apply_shim_key key value o) >>= λ next.
          shim_loop rest next
    ]
  ]

  abbrev pub is_absolute : Option Bytes → Bool
  is_absolute none = false
  is_absolute (some path) = starts_slash path

  abbrev pub check_shim : ShimOptions × List Bytes → Option (ShimOptions × List Bytes)
  check_shim (o, command) =
      if is_some o.id
        && is_some o.rootfs
        && is_some o.hostname
        && is_absolute o.workdir
        && not (o.detach && not (is_some o.ready_fd))
        && not (o.memory_max == 0)
        && not (o.cpu_quota == 0)
        && not (o.pids_max == 0)
      then some (o, command)
      else none

  unfoldable pub parse_shim : List Bytes → Option (ShimOptions × List Bytes)
  unfolding shim_loop
  parse_shim arguments = shim_loop arguments cleared >>= check_shim

-- ===== src/Cli.antt =====
-- cli/main.c: the options of `run` and `create`, up to the configuration that is stored; the commands
-- are in the modules below.
pub mod Accepted
pub mod Commands
pub mod Create
pub mod Calls
pub mod Removed
pub mod Loaded
pub mod Registered
use minicontainer.Base.{
  ℕ, zero, suc, ◌+◌, ◌-◌, ◌*◌, ◌/◌, ◌%◌, ◌^◌, ◌≤◌, ◌<◌, ◌≡◌, ◌≢◌, ◌↔◌, ◌⊎◌, inl, inr, refl, sym, ap,
  ◌∙◌, Bool, true, false, not, ◌&&◌, ◌||◌, Option, none, some, List, [], ◌∷◌, ◌++◌, map, arith,
  Bytes, codes, length, All, ◌==◌, leb, ltb, if◌then◌else◌, ◌>>=◌, ◌>>◌, guard, is_some, Bool-cases,
  Option-cases,
}
use minicontainer.Base.{str_eq, any}
use minicontainer.Validate.Name.{valid_name}
use minicontainer.Validate.Path.{starts_slash}
use minicontainer.Validate.Environment.{valid_environment}
use minicontainer.Validate.User.{parse_user}
use minicontainer.Resource.{parse_bytes, parse_cpu_quota, parse_positive_u64}
use minicontainer.Network.{Publish, parse_publish, clashes}
use minicontainer.Mount.{Mount, Host, parse_bind_mount, parse_tmpfs_mount}
use minicontainer.Security.{Seccomp, ProfileFile, capability_parse, seccomp_profile_load}

-- The local variables of the branch. A profile without names is not NULL: `some []`.
pub record Options : Type 0 where
  pub image : Option Bytes
  pub name : Option Bytes
  pub hostname : Option Bytes
  pub workdir : Bytes
  pub environment : List Bytes
  pub publishes : List Publish
  pub mounts : List Mount
  pub seccomp_denies : Option (List Bytes)
  pub user : ℕ
  pub group : ℕ
  pub detach : Bool
  pub memory_max : ℕ
  pub swap_max : ℕ
  pub cpu_quota : ℕ
  pub pids_max : ℕ
  pub capability_mask : ℕ
  pub readonly_root : Bool
  pub network_bridge : Bool

abbrev pub default_options : Options
default_options = record {
  image = none;
  name = none;
  hostname = none;
  workdir = codes "/";
  environment = [];
  publishes = [];
  mounts = [];
  seccomp_denies = none;
  user = 0;
  group = 0;
  detach = false;
  memory_max = 128 * 1024 * 1024;
  swap_max = 0;
  cpu_quota = 50000;
  pids_max = 128;
  capability_mask = 0;
  readonly_root = false;
  network_bridge = true;
}

-- The branches of the option loop that take the next argument.
pub data Key : Type 0 where
  name_key image_key hostname_key workdir_key user_key env_key memory_key swap_key : Key
  cpus_key pids_key network_key publish_key cap_add_key bind_key tmpfs_key profile_key : Key

unfoldable pub key_of : Bytes → Option Key
key_of argument =
    if str_eq argument (codes "--name")
    then some name_key
    else if str_eq argument (codes "--image")
    then some image_key
    else if str_eq argument (codes "--hostname")
    then some hostname_key
    else if str_eq argument (codes "--workdir")
    then some workdir_key
    else if str_eq argument (codes "--user")
    then some user_key
    else if str_eq argument (codes "--env")
    then some env_key
    else if str_eq argument (codes "--memory") || str_eq argument (codes "--mem")
    then some memory_key
    else if str_eq argument (codes "--memory-swap") || str_eq argument (codes "--swap")
    then some swap_key
    else if str_eq argument (codes "--cpus") || str_eq argument (codes "--cpu")
    then some cpus_key
    else if str_eq argument (codes "--pids-limit")
    then some pids_key
    else if str_eq argument (codes "--network")
    then some network_key
    else if str_eq argument (codes "--publish")
    then some publish_key
    else if str_eq argument (codes "--cap-add")
    then some cap_add_key
    else if str_eq argument (codes "--bind")
    then some bind_key
    else if str_eq argument (codes "--tmpfs")
    then some tmpfs_key
    else if str_eq argument (codes "--seccomp-profile")
    then some profile_key
    else none

-- capability_mask |= UINT64_C(1) << capability
abbrev pub set_bit : ℕ → ℕ → ℕ
set_bit mask bit = if mask / 2 ^ bit % 2 == 1 then mask else mask + 2 ^ bit

abbrev pub pids_limit : ℕ
pids_limit = 4194304

abbrev pub parse_swap : Bytes → Option ℕ
parse_swap value = if str_eq value (codes "0") then some 0 else parse_bytes value

abbrev pub parse_network : Bytes → Option Bool
parse_network mode =
    if str_eq mode (codes "bridge")
    then some true
    else if str_eq mode (codes "none")
    then some false
    else none

-- The file system, libseccomp, and what the profile loader learns of the file at a path.
pub record Machine : Type 0 where
  pub host : Host
  pub seccomp : Seccomp
  pub profile_at : Bytes → ProfileFile

module _ (machine : Machine) where
  -- One branch with its argument; `none` where the command ends with MC_EXIT_USAGE.
  unfoldable pub apply_key : Key → Bytes → Options → Option Options
  apply_key name_key value o =
      if valid_name value then some (record o { name = some value }) else none
  apply_key image_key value o = some (record o { image = some value })
  apply_key hostname_key value o = some (record o { hostname = some value })
  apply_key workdir_key value o =
      if starts_slash value then some (record o { workdir = value }) else none
  apply_key user_key value o =
      parse_user value >>= λ ids. some (record o { user = ids.0; group = ids.1 })
  apply_key env_key value o =
      if valid_environment value
      then some (record o { environment = o.environment ++ (value ∷ []) })
      else none
  apply_key memory_key value o = parse_bytes value >>= λ n. some (record o { memory_max = n })
  apply_key swap_key value o = parse_swap value >>= λ n. some (record o { swap_max = n })
  apply_key cpus_key value o = parse_cpu_quota value >>= λ n. some (record o { cpu_quota = n })
  apply_key pids_key value o =
      parse_positive_u64 value pids_limit >>= λ n. some (record o { pids_max = n })
  apply_key network_key value o =
      parse_network value >>= λ bridge. some (record o { network_bridge = bridge })
  apply_key publish_key value o = parse_publish value >>= λ parsed.
      if any (λ existing. clashes existing parsed) o.publishes
      then none
      else some (record o { publishes = o.publishes ++ (parsed ∷ []) })
  apply_key cap_add_key value o = capability_parse value >>= λ capability.
      if leb 64 capability
      then none
      else some (record o { capability_mask = set_bit o.capability_mask capability })
  apply_key bind_key value o = parse_bind_mount machine.host value >>= λ mount.
      some (record o { mounts = o.mounts ++ (mount ∷ []) })
  apply_key tmpfs_key value o =
      parse_tmpfs_mount value >>= λ mount. some (record o { mounts = o.mounts ++ (mount ∷ []) })
  apply_key profile_key value o =
      if is_some o.seccomp_denies
      then none
      else (seccomp_profile_load machine.seccomp value (machine.profile_at value) >>= λ denies.
          some (record o { seccomp_denies = some denies }))

  -- The options without an argument.
  unfoldable pub apply_flag : Bytes → Options → Option Options
  apply_flag argument o =
      if str_eq argument (codes "--detach")
      then some (record o { detach = true })
      else if str_eq argument (codes "--read-only")
      then some (record o { readonly_root = true })
      else none

  -- The loop over the arguments: the options, and the command behind "--", if there is one.
  unfoldable pub option_loop : List Bytes → Options → Option (Options × Option (List Bytes))
  option_loop [] o = some (o, none)
  option_loop (argument ∷ []) o =
      if str_eq argument (codes "--")
      then some (o, some [])
      else (apply_flag argument o >>= λ next. some (next, none))
  option_loop (argument ∷ value ∷ rest) o = elim (str_eq argument (codes "--")) [
    | true ↦ some (o, some (value ∷ rest))
    | false ↦ elim (apply_flag argument o) [
      | some next ↦ option_loop (value ∷ rest) next
      | none ↦ (key_of argument >>= λ key. apply_key key value o) >>= λ next. option_loop rest next
    ]
  ]

  -- What is passed on: an image and a command are given, and no port is published without a network.
  unfoldable pub accept_options : Options × Option (List Bytes) → Option (Options × List Bytes)
  accept_options (o, none) = none
  accept_options (o, some []) = none
  accept_options (o, some (program ∷ arguments)) =
      if not (is_some o.image)
      then none
      else if not o.network_bridge && ltb 0 (length o.publishes)
      then none
      else some (o, program ∷ arguments)

  -- The arguments behind "run" or "create". Between the two last tests the image and a fresh
  -- identifier are looked up, which may fail with an error of their own.
  unfoldable pub parse_run : List Bytes → Option (Options × List Bytes)
  unfolding option_loop accept_options
  parse_run arguments = option_loop arguments default_options >>= accept_options

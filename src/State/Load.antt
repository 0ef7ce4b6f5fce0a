-- ===== src/State/Load.antt =====
-- state/store.c: mc_state_load_config, which reads the document config.json back.
use minicontainer.Base.{
  ℕ, ◌-◌, ◌%◌, ◌^◌, Bool, true, false, not, Option, none, some, List, [], ◌∷◌, map, Bytes, codes,
  length, ◌==◌, if◌then◌else◌, ◌>>=◌, is_some, take, str_eq,
}
use minicontainer.Network.{Publish}
use minicontainer.Mount.{Mount, MountType, bind, tmpfs}
use minicontainer.Cli.{Options, default_options}
use minicontainer.Launch.{RunConfig}
use minicontainer.State.Json.{Json}
use minicontainer.State.Registry.{
  World, config, Result, ok, err, exit_runtime, path_max, path_fits, read, resolve,
}

-- A type other than MC_MOUNT_BIND counts as tmpfs, as for mc_launch_shim.
abbrev pub type_of_number : ℕ → MountType
type_of_number n = if n == 1 then bind else tmpfs

-- A bind mount has a source.
abbrev pub has_source : MountType → Option Bytes → Bool
has_source bind source = is_some source
has_source tmpfs source = true

module _ (J : Json) where
  abbrev pub copy_string : J.Value → Bytes → Option Bytes
  copy_string root key =
      J.get root key >>= λ v. if J.is_string v then some (J.get_string v) else none

  abbrev pub array_of : J.Value → Bytes → Option (List J.Value)
  array_of root key = J.get root key >>= λ v. if J.is_array v then some (J.items v) else none

  -- The casts to uint32_t, uint16_t and uint8_t.
  unfoldable pub load_publish : J.Value → Option Publish
  load_publish v = J.get v (codes "host_ipv4") >>= λ address.
      J.get v (codes "host_port") >>= λ host. J.get v (codes "container_port") >>= λ container.
      J.get v (codes "protocol") >>= λ protocol. some (record {
        host_ipv4 = J.get_int64 address % 2 ^ 32;
        host_port = J.get_int host % 2 ^ 16;
        container_port = J.get_int container % 2 ^ 16;
        protocol = J.get_int protocol % 2 ^ 8;
      })

  unfoldable pub load_mount : J.Value → Option Mount
  load_mount v = J.get v (codes "type") >>= λ type. J.get v (codes "size") >>= λ size.
      J.get v (codes "readonly") >>= λ readonly. copy_string v (codes "target") >>= λ target.
      let source = copy_string v (codes "source") in
      if has_source (type_of_number (J.get_int type)) source
      then some (record {
        type = type_of_number (J.get_int type);
        source = source;
        target = target;
        size = J.get_uint64 size;
        readonly = J.get_boolean readonly;
      })
      else none

  abbrev pub load_each {ℓ} : {A : Type ℓ} → (J.Value → Option A) → List J.Value → Option (List A)
  load_each load [] = some []
  load_each load (v ∷ vs) = load v >>= λ a. load_each load vs >>= λ rest. some (a ∷ rest)

  abbrev pub load_mounts : Option J.Value → Option (List Mount)
  load_mounts none = some []
  load_mounts (some v) = if J.is_array v then load_each load_mount (J.items v) else none

  abbrev pub load_denies : Option J.Value → Option (Option (List Bytes))
  load_denies none = some none
  load_denies (some v) = if J.is_array v then some (some (map J.get_string (J.items v))) else none

  -- What load_arrays adds. Without "mounts" it returns before it looks for "seccomp_denies".
  pub record Arrays : Type 0 where
    pub environment : List Bytes
    pub command : List Bytes
    pub publishes : List Publish
    pub mounts : List Mount
    pub denies : Option (List Bytes)

  abbrev pub denies_after : J.Value → Option J.Value → Option (Option (List Bytes))
  denies_after root none = some none
  denies_after root (some mounts) = load_denies (J.get root (codes "seccomp_denies"))

  unfoldable pub load_arrays : J.Value → Option Arrays
  load_arrays root = array_of root (codes "environment") >>= λ environment.
      array_of root (codes "command") >>= λ command.
      (if length command == 0 then none else array_of root (codes "publishes")) >>= λ published.
      load_each load_publish published >>= λ publishes.
      load_mounts (J.get root (codes "mounts")) >>= λ mounts.
      denies_after root (J.get root (codes "mounts")) >>= λ denies. some (record {
        environment = map J.get_string environment;
        command = map J.get_string command;
        publishes = publishes;
        mounts = mounts;
        denies = denies;
      })

  -- The limits of "resources", in the order of their fields.
  unfoldable pub load_resources : J.Value → Option (ℕ × ℕ × ℕ × ℕ)
  load_resources r = J.get r (codes "memory_max") >>= λ memory.
      J.get r (codes "swap_max") >>= λ swap. J.get r (codes "cpu_quota") >>= λ quota.
      J.get r (codes "pids_max") >>= λ pids.
      some (J.get_uint64 memory, J.get_uint64 swap, J.get_uint64 quota, J.get_uint64 pids)

  abbrev pub number_or_zero : Option J.Value → ℕ
  number_or_zero none = 0
  number_or_zero (some v) = J.get_uint64 v

  abbrev pub flag_or_false : Option J.Value → Bool
  flag_or_false none = false
  flag_or_false (some v) = J.get_boolean v

  -- The options that stand in the document itself.
  unfoldable pub load_scalars : J.Value → Option (Options × ℕ)
  load_scalars root = J.get root (codes "image") >>= λ image. J.get root (codes "user") >>= λ user.
      J.get root (codes "group") >>= λ group. J.get root (codes "network_mode") >>= λ mode.
      J.get root (codes "ipv4_host") >>= λ ipv4. J.get root (codes "resources") >>= λ resources.
      load_resources resources >>= λ (memory, swap, quota, pids).
      copy_string root (codes "workdir") >>= λ workdir. some (
        record default_options {
          image = some (take (path_max - 1) (J.get_string image));
          name = copy_string root (codes "name");
          workdir = workdir;
          user = J.get_int64 user % 2 ^ 32;
          group = J.get_int64 group % 2 ^ 32;
          capability_mask = number_or_zero (J.get root (codes "capability_mask"));
          readonly_root = flag_or_false (J.get root (codes "readonly_root"));
          network_bridge = str_eq (J.get_string mode) (codes "bridge");
          memory_max = memory;
          swap_max = swap;
          cpu_quota = quota;
          pids_max = pids;
        },
        J.get_int64 ipv4 % 2 ^ 32,
      )

  -- The document of a container; `none` where it is refused.
  unfoldable pub load_document : J.Value → Option RunConfig
  load_document root = load_scalars root >>= λ (o, ipv4). copy_string root (codes "id") >>= λ id.
      copy_string root (codes "rootfs") >>= λ rootfs.
      copy_string root (codes "hostname") >>= λ hostname. load_arrays root >>= λ arrays.
      some (record {
        id = id;
        rootfs = rootfs;
        hostname = hostname;
        ipv4_host = ipv4;
        options = record o {
          hostname = some hostname;
          environment = arrays.environment;
          publishes = arrays.publishes;
          mounts = arrays.mounts;
          seccomp_denies = arrays.denies;
        };
        command = arrays.command;
      })

  -- mc_state_load_config. Where the path is too long it returns -1 and sets no error.
  unfoldable pub load_config : World J → Bytes → Result RunConfig
  load_config w reference = elim (resolve J w reference) [
    | err code ↦ err code
    | ok id ↦
        if not (path_fits J w id config)
        then err 0
        else (elim (read J w id config >>= load_document) [
          | none ↦ err exit_runtime
          | some loaded ↦ ok loaded
        ])
  ]

-- ===== src/Launch.antt =====
-- runtime/launch.c: the argument list of the shim. The pipes, the fork and the wait of mc_launch_shim
-- are not modelled.
pub mod Room
use minicontainer.Base.{
  ℕ, zero, suc, ◌+◌, ◌-◌, ◌*◌, ◌/◌, ◌%◌, ◌^◌, ◌≤◌, ◌<◌, ◌≡◌, ◌≢◌, ◌↔◌, ◌⊎◌, inl, inr, refl, sym, ap,
  ◌∙◌, Bool, true, false, not, ◌&&◌, ◌||◌, Option, none, some, List, [], ◌∷◌, ◌++◌, map, arith,
  Bytes, codes, length, All, ◌==◌, leb, ltb, if◌then◌else◌, ◌>>=◌, ◌>>◌, guard, is_some, Bool-cases,
  Option-cases,
}
use minicontainer.Base.{take}
use minicontainer.Base.Number.{decimal}
use minicontainer.Network.{Publish}
use minicontainer.Mount.{Mount, MountType, bind, tmpfs}
use minicontainer.Security.{capability_name}
use minicontainer.Cli.{Options}

-- mc_run_config, with the options of the command line as one field. The host name is that of the
-- options or, where they have none, the generated one.
pub record RunConfig : Type 0 where
  pub id : Bytes
  pub rootfs : Bytes
  pub hostname : Bytes
  pub ipv4_host : ℕ
  pub options : Options
  pub command : List Bytes

-- What snprintf stores in an array of the given size.
abbrev printed : ℕ → Bytes → Bytes
printed size text = take (size - 1) text

-- An entry of the argument array; `none` is NULL.
abbrev pub Slot : Type 0
Slot = Option Bytes

abbrev pub flagged : Bytes → List Bytes → List Slot
flagged flag [] = []
flagged flag (value ∷ values) = some flag ∷ some value ∷ flagged flag values

abbrev pub has_bit : ℕ → ℕ → Bool
has_bit mask index = mask / 2 ^ index % 2 == 1

-- The loop over the bits of the capability mask.
unfoldable pub capability_slots : ℕ → ℕ → ℕ → List Slot
capability_slots mask zero index = []
capability_slots mask (suc rounds) index =
    let rest = capability_slots mask rounds (index + 1) in
    if has_bit mask index then some (codes "--cap-add") ∷ capability_name index ∷ rest else rest

abbrev pub publish_value : Publish → Bytes
publish_value p = printed 64 (
    decimal p.host_ipv4
    ++ (b',' ∷ decimal p.host_port
        ++ (b',' ∷ decimal p.container_port ++ (b',' ∷ decimal p.protocol))))

abbrev source_text : Option Bytes → Bytes
source_text none = []
source_text (some source) = source

-- The text of a mount; a bind mount always has a source.
abbrev pub mount_slots : Mount → MountType → List Slot
mount_slots m bind =
    some (codes "--bind")
    ∷ some (
        printed 8192 (
          source_text m.source
          ++ (b':' ∷ m.target ++ (b':' ∷ (if m.readonly then codes "ro" else codes "rw")))))
    ∷ []
mount_slots m tmpfs =
    some (codes "--tmpfs") ∷ some (printed 8192 (m.target ++ (b':' ∷ decimal m.size))) ∷ []

abbrev pub all_mount_slots : List Mount → List Slot
all_mount_slots [] = []
all_mount_slots (m ∷ mounts) = mount_slots m m.type ++ all_mount_slots mounts

abbrev pub denied_names : Option (List Bytes) → List Bytes
denied_names none = []
denied_names (some denies) = denies

abbrev pub fixed_slots : Bytes → RunConfig → List Slot
fixed_slots path config =
    some path ∷ flagged (codes "--id") (config.id ∷ [])
    ++ flagged (codes "--rootfs") (config.rootfs ∷ [])
    ++ flagged (codes "--hostname") (config.hostname ∷ [])
    ++ flagged (codes "--workdir") (config.options.workdir ∷ [])
    ++ flagged (codes "--user")
        (printed 32 (decimal config.options.user ++ (b':' ∷ decimal config.options.group)) ∷ [])

abbrev pub limit_slots : RunConfig → List Slot
limit_slots config =
    flagged (codes "--memory") (printed 32 (decimal config.options.memory_max) ∷ [])
    ++ flagged (codes "--memory-swap") (printed 32 (decimal config.options.swap_max) ∷ [])
    ++ flagged (codes "--cpu-quota") (printed 32 (decimal config.options.cpu_quota) ∷ [])
    ++ flagged (codes "--pids-limit") (printed 32 (decimal config.options.pids_max) ∷ [])
    ++ flagged (codes "--network")
        ((if config.options.network_bridge then codes "bridge" else codes "none") ∷ [])
    ++ flagged (codes "--ipv4-host") (printed 32 (decimal config.ipv4_host) ∷ [])

-- The descriptor of the readiness pipe is an argument.
abbrev pub ready_slots : ℕ → RunConfig → List Slot
ready_slots descriptor config =
    if config.options.detach
    then some (codes "--detach")
      ∷ some (codes "--ready-fd")
      ∷ some (printed 32 (decimal descriptor))
      ∷ []
    else []

abbrev pub readonly_slots : RunConfig → List Slot
readonly_slots config = if config.options.readonly_root then some (codes "--read-only") ∷ [] else []

-- The array that is passed to execv, in the order in which it is filled.
unfoldable pub shim_arguments : Bytes → ℕ → RunConfig → List Slot
shim_arguments path descriptor config =
    fixed_slots path config
    ++ (flagged (codes "--env") config.options.environment
        ++ (limit_slots config
            ++ (flagged (codes "--publish") (map publish_value config.options.publishes)
                ++ (capability_slots config.options.capability_mask 64 0
                    ++ (readonly_slots config
                        ++ (all_mount_slots config.options.mounts
                            ++ (flagged (codes "--seccomp-deny")
                                  (denied_names config.options.seccomp_denies)
                                ++ (ready_slots descriptor config
                                    ++ (some (codes "--") ∷ map some config.command)))))))))

-- The number of entries that calloc is asked for.
abbrev pub allocated_slots : RunConfig → ℕ
allocated_slots config =
    length config.command
    + 111
    + length config.options.environment * 2
    + length config.options.publishes * 2
    + length config.options.mounts * 2
    + length (denied_names config.options.seccomp_denies) * 2

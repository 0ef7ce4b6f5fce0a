-- ===== src/Linux/Cgroup.antt =====
-- linux/cgroup.c: mc_cgroup_create and mc_cgroup_destroy. systemd and the files of the control group
-- are the parameter `Kernel`.
use minicontainer.Base.{
  ℕ, zero, suc, ◌+◌, ◌-◌, Bool, true, false, not, ◌&&◌, Option, none, some, List, [], ◌∷◌, ◌++◌,
  Bytes, codes, length, ◌==◌, ltb, if◌then◌else◌, ◌>>=◌, ◌>>◌, guard, is_some, take, drop,
  starts_with, str_eq,
}
use minicontainer.Base.Number.{decimal}
use minicontainer.Launch.{RunConfig}
use minicontainer.State.Registry.{exit_runtime}
use minicontainer.State.Identity.{contains}
use minicontainer.Image.Store.{first_line}

-- struct mc_cgroup; `payload_open` tells whether payload_fd is a descriptor.
pub record Cgroup : Type 0 where
  pub scope : Bytes
  pub supervisor : Bytes
  pub payload : Bytes
  pub payload_open : Bool
  pub active : Bool

-- The skip of the environment variable, the code with which StartTransientUnit fails, the lines of
-- /proc/self/cgroup at each attempt, and the calls on files: mkdir, open for writing, the results of
-- write, `none` for an error, which ends the list, close, and the line that is read.
pub record Kernel : Type 0 where
  pub skips : Bool
  pub scope_error : Option ℕ
  pub lines : ℕ → Option (List Bytes)
  pub mkdir_works : Bytes → Bool
  pub opens : Bytes → Bytes → Bool
  pub writes : Bytes → Bytes → List (Option ℕ)
  pub closes : Bytes → Bytes → Bool
  pub line : Bytes → Bytes → Option Bytes
  pub payload_opens : Bool
  pub pid : ℕ

abbrev path_size : ℕ
path_size = 4096

abbrev current_of : List Bytes → Option Bytes
current_of [] = none
current_of (line ∷ lines) =
    let later = current_of lines in
    let path = first_line (drop 3 line) in
    if not (starts_with (codes "0::") line)
    then later
    else if ltb path_size (length path + 1)
    then none
    else some path

-- read_current_cgroup
unfoldable pub read_current_cgroup : Option (List Bytes) → Option Bytes
read_current_cgroup none = none
read_current_cgroup (some lines) = current_of lines

abbrev pub join_path : Bytes → Bytes → Option Bytes
join_path left right =
    if ltb path_size (length left + length right + 2) then none else some (left ++ (b'/' ∷ right))

-- The loop of write_value, with as many bytes left.
abbrev pub write_loop : List (Option ℕ) → ℕ → Bool
write_loop [] left = left == 0
write_loop (none ∷ counts) left = left == 0
write_loop (some count ∷ counts) left =
    let next = write_loop counts (left - count) in if left == 0 then true else next

abbrev pub unit_name : Bytes → Bytes
unit_name id = take 95 (codes "minicontainer-" ++ (id ++ codes ".scope"))

module _ (K : Kernel) where
  unfoldable pub write_value : Bytes → Bytes → Bytes → Bool
  write_value directory name value =
      is_some (join_path directory name)
      && (K.opens directory name
          && (write_loop (K.writes directory name) (length value) && K.closes directory name))

  -- fgets reads at most 255 characters.
  unfoldable pub verify_value : Bytes → Bytes → Bytes → Bool
  verify_value directory name expected =
      is_some (join_path directory name) && (elim (K.line directory name) [
        | none ↦ false
        | some line ↦ str_eq (first_line (take 255 line)) expected
      ])

  -- The loop that waits until the process is in its scope.
  abbrev pub await_scope : Bytes → ℕ → ℕ → Option Bytes
  await_scope unit zero attempt = none
  await_scope unit (suc rounds) attempt =
      let later = await_scope unit rounds (attempt + 1) in
      elim (read_current_cgroup (K.lines attempt)) [
        | none ↦ later
        | some relative ↦ if contains unit relative then some relative else later
      ]

  abbrev pub empty_cgroup : Cgroup
  empty_cgroup = record {
    scope = [];
    supervisor = [];
    payload = [];
    payload_open = false;
    active = false;
  }

  -- The paths of the layout, where both directories are made.
  unfoldable pub layout : Bytes → Option Cgroup
  layout relative =
      let scope = take (path_size - 1) (codes "/sys/fs/cgroup" ++ relative) in
      join_path scope (codes "supervisor") >>= λ supervisor.
      join_path scope (codes "payload") >>= λ payload.
      guard (K.mkdir_works supervisor && K.mkdir_works payload)
      >> some (record empty_cgroup { scope = scope; supervisor = supervisor; payload = payload })

  abbrev pub delegates : Cgroup → Bool
  delegates cgroup =
      write_value cgroup.supervisor (codes "cgroup.procs") (decimal K.pid ++ codes "\n")
      && write_value cgroup.scope (codes "cgroup.subtree_control") (codes "+cpu +memory +pids +io")

  abbrev pub limits : Bytes → Bytes → Bytes → Bool
  limits payload name value = write_value payload name value && verify_value payload name value

  -- The four limits, in their order.
  unfoldable pub apply_limits : RunConfig → Bytes → Bool
  apply_limits config payload =
      limits payload (codes "memory.max") (decimal config.options.memory_max)
      && (limits payload (codes "memory.swap.max") (decimal config.options.swap_max)
          && (limits payload (codes "cpu.max") (decimal config.options.cpu_quota ++ codes " 100000")
              && limits payload (codes "pids.max") (decimal config.options.pids_max)))

  abbrev pub program : RunConfig → Cgroup → Cgroup × Option ℕ
  program config cgroup =
      if not (delegates cgroup)
      then (cgroup, some exit_runtime)
      else if not (apply_limits config cgroup.payload)
      then (cgroup, some exit_runtime)
      else if not K.payload_opens
      then (cgroup, some exit_runtime)
      else (record cgroup { payload_open = true; active = true }, none)

  -- mc_cgroup_create. On an error the fields of the cgroup are not used.
  unfoldable pub create : RunConfig → Cgroup × Option ℕ
  unfolding contains
  create config = if K.skips then (empty_cgroup, none) else (elim K.scope_error [
    | some code ↦ (empty_cgroup, some code)
    | none ↦ elim (await_scope (unit_name config.id) 100 0 >>= layout) [
      | none ↦ (empty_cgroup, some exit_runtime)
      | some cgroup ↦ program config cgroup
    ]
  ])

-- mc_cgroup_destroy: the processes of the payload are killed.
unfoldable pub destroy : Cgroup → Cgroup
destroy cgroup =
    if not cgroup.active then cgroup else record cgroup { payload_open = false; active = false }

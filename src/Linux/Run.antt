-- ===== src/Linux/Run.antt =====
-- linux/container.c: mc_container_run, the life of a container in its shim, with all that it holds.
-- The child is the other process; what the calls of the system return is the parameter `Host`.
use minicontainer.Base.{
  ℕ, ◌+◌, ◌/◌, ◌%◌, Bool, true, false, not, ◌&&◌, Option, none, some, List, [], ◌∷◌, Bytes, codes,
  ◌==◌, if◌then◌else◌, ◌>>=◌, is_some, has_char,
}
use minicontainer.Launch.{RunConfig}
use minicontainer.State.Registry.{Result, ok, err, exit_runtime}
use minicontainer.Cli.Commands.{exit_permission}
use minicontainer.Linux.Cgroup.{Cgroup, Kernel, create, destroy}

-- What waitpid returns in a round of the loop: 0, EINTR, another error, or the child and its status.
pub data Wait : Type 0 where
  running interrupted failed : Wait
  ended : ℕ → Wait

-- The results of the calls, in their order. `prepare_error` is the code of prepare_paths, 0 where it
-- sets none; `network_active` is what mc_network_setup leaves, also where it fails; `ready` is the byte
-- that is read from the pipe, `none` where read returns no byte; `last_error` is the code with which the
-- last write of state.json fails.
pub record Host : Type 0 where
  pub is_root : Bool
  pub drops_groups : Bool
  pub subid_error : Option ℕ
  pub kernel : Kernel
  pub prepare_error : Option ℕ
  pub barrier_opens : Bool
  pub ready_opens : Bool
  pub clones : Bool
  pub gives_pidfd : Bool
  pub maps_ids : Bool
  pub network_active : Bool
  pub network_error : Option ℕ
  pub barrier_writes : Bool
  pub ready : Option ℕ
  pub listens : Bool
  pub writes_running : Bool
  pub ready_writes : Bool
  pub forwards : Bool
  pub waits : List Wait
  pub last_error : Option ℕ

-- What the shim holds: a child that it has not waited for, the control group, the network, open
-- descriptors, the ready descriptor of the caller included, and the signal handlers; and the status and
-- exit code in state.json.
pub record Held : Type 0 where
  pub child : Bool
  pub cgroup : Cgroup
  pub network : Bool
  pub barrier_read : Bool
  pub barrier_write : Bool
  pub ready_read : Bool
  pub ready_write : Bool
  pub ready_fd : Bool
  pub pidfd : Bool
  pub listener : Bool
  pub forwarders : Bool
  pub recorded : Option (Bytes × ℕ)

-- Nothing but, where the caller has one, its ready descriptor.
abbrev pub nothing_held : Bool → Cgroup → Held
nothing_held ready_fd cgroup = record {
  child = false;
  cgroup = cgroup;
  network = false;
  barrier_read = false;
  barrier_write = false;
  ready_read = false;
  ready_write = false;
  ready_fd = ready_fd;
  pidfd = false;
  listener = false;
  forwarders = false;
  recorded = none;
}

abbrev drop_cgroup : Held → Held
drop_cgroup held = record held { cgroup = destroy held.cgroup }

-- The two calls of pipe2.
abbrev open_barrier : Held → Held
open_barrier held = record held { barrier_read = true; barrier_write = true }

abbrev open_ready : Held → Held
open_ready held = record held { ready_read = true; ready_write = true }

-- Behind clone3, whether it works or not, the ends of the child are closed; later the own ones are.
abbrev close_child_ends : Held → Held
close_child_ends held = record held { barrier_read = false; ready_write = false }

abbrev close_own_ends : Held → Held
close_own_ends held = record held { barrier_write = false; ready_read = false }

-- kill with SIGKILL, and waitpid.
abbrev kill_child : Held → Held
kill_child held = record held { child = false }

abbrev close_ready_fd : Held → Held
close_ready_fd held = record held { ready_fd = false }

-- The network is destroyed where one is left.
abbrev abort_setup : Held → Held
abort_setup held =
    drop_cgroup (record (close_ready_fd (close_own_ends (kill_child held))) {
      pidfd = false;
      network = false;
    })

-- WIFEXITED, WEXITSTATUS, WIFSIGNALED and WTERMSIG of a status of waitpid; `none` where it failed.
abbrev pub decode : Option ℕ → ℕ
decode none = exit_runtime
decode (some status) =
    if status % 128 == 0
    then status / 256 % 256
    else if status % 128 == 127
    then exit_runtime
    else 128 + status % 128

-- The loop over waitpid; it goes on for as long as the child runs.
unfoldable pub wait_loop : List Wait → Option (Option ℕ)
wait_loop [] = none
wait_loop (running ∷ waits) = wait_loop waits
wait_loop (interrupted ∷ waits) = wait_loop waits
wait_loop (failed ∷ waits) = some none
wait_loop (ended status ∷ waits) = some (some status)

module _ (H : Host) (config : RunConfig) where
  -- The first error before the control group is made. A comma in the path of the root file system sets
  -- none.
  abbrev pub refused : Option ℕ
  refused =
      if not H.is_root
      then some exit_permission
      else if not H.drops_groups
      then some exit_permission
      else if has_char b',' config.rootfs
      then some 0
      else H.subid_error

  abbrev code_or_runtime : Option ℕ → ℕ
  code_or_runtime none = exit_runtime
  code_or_runtime (some code) = if code == 0 then exit_runtime else code

  abbrev pub has_network : Bool
  has_network = H.maps_ids && (config.options.network_bridge && H.network_active)

  abbrev network_fails : Option ℕ
  network_fails = if H.maps_ids && config.options.network_bridge then H.network_error else none

  -- The id maps, the network and the write to the barrier.
  abbrev pub sets_up : Bool
  sets_up = H.maps_ids && (not (is_some network_fails) && H.barrier_writes)

  abbrev is_one : Option ℕ → Bool
  is_one none = false
  is_one (some byte) = byte == b'1'

  abbrev announced : Bool → Bool
  announced ready_fd = if ready_fd then H.ready_writes else true

  -- `ready_count == 1` at the end: another byte than '1' is not looked at any more.
  abbrev pub counts_ready : Bool → Bool
  counts_ready ready_fd =
      if is_one H.ready
      then H.listens && (H.writes_running && announced ready_fd)
      else is_some H.ready

  -- The child runs, and mc_network_setup has been called.
  abbrev with_child : Held → Held
  with_child held = record held { child = true; pidfd = H.gives_pidfd; network = has_network }

  -- The barrier is passed, the answer of the child is read and passed on, and the loop begins. The ready
  -- descriptor is closed on each branch.
  abbrev pub supervised : Held → Held
  supervised held = record (close_ready_fd (close_own_ends held)) {
    listener = is_one H.ready && H.listens;
    forwarders = H.forwards;
    recorded =
        if is_one H.ready && (H.listens && H.writes_running)
        then some (codes "running", 0)
        else none;
  }

  abbrev last_status : Bool → Bytes
  last_status ready_fd = if counts_ready ready_fd then codes "stopped" else codes "failed"

  -- The part behind the loop. A child that waitpid has failed for is not waited for.
  unfoldable pub release : Bool → Held → Option ℕ → Held
  release ready_fd held status = record held {
    child = not (is_some status);
    cgroup = destroy held.cgroup;
    network = false;
    pidfd = false;
    listener = false;
    forwarders = false;
    recorded =
        if is_some H.last_error then held.recorded else some (last_status ready_fd, decode status);
  }

  abbrev pub result_of : Option ℕ → Result ℕ
  result_of none = err (elim H.last_error [ none ↦ exit_runtime | some code ↦ code ])
  result_of (some status) = ok (decode (some status))

  unfoldable pub supervise : Bool → Held → Option (Held × Result ℕ)
  supervise ready_fd held = wait_loop H.waits >>= λ status.
      some (release ready_fd (supervised held) status, result_of status)

  -- From clone3 on. Where it fails, the ready descriptor of the caller stays open.
  unfoldable pub with_pipes : Bool → Held → Option (Held × Result ℕ)
  with_pipes ready_fd held =
      let parent = close_child_ends held in
      if not H.clones
      then some (drop_cgroup (close_own_ends parent), err exit_runtime)
      else if not sets_up
      then some (abort_setup (with_child parent), err (code_or_runtime network_fails))
      else supervise ready_fd (with_child parent)

  -- Where the second pipe cannot be made, the first stays open.
  unfoldable pub with_cgroup : Bool → Cgroup × Option ℕ → Option (Held × Result ℕ)
  with_cgroup ready_fd (cgroup, some code) = some (nothing_held ready_fd cgroup, err code)
  with_cgroup ready_fd (cgroup, none) =
      let held = nothing_held ready_fd cgroup in
      elim H.prepare_error as (λ _. Option (Held × Result ℕ)) [
        | some code ↦ some (drop_cgroup held, err (code_or_runtime (some code)))
        | none ↦
            if not H.barrier_opens
            then some (drop_cgroup held, err exit_runtime)
            else if not H.ready_opens
            then some (drop_cgroup (open_barrier held), err exit_runtime)
            else with_pipes ready_fd (open_ready (open_barrier held))
      ]

  abbrev unused_cgroup : Cgroup
  unused_cgroup = record {
    scope = [];
    supervisor = [];
    payload = [];
    payload_open = false;
    active = false;
  }

  -- mc_container_run; `ready_fd` tells whether the configuration has a ready descriptor. `none`: the
  -- call has not returned.
  unfoldable pub run : Bool → Option (Held × Result ℕ)
  run ready_fd = elim refused as (λ _. Option (Held × Result ℕ)) [
    | some code ↦ some (nothing_held ready_fd unused_cgroup, err code)
    | none ↦ with_cgroup ready_fd (create H.kernel config)
  ]

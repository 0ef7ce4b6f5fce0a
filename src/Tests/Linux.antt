-- ===== src/Tests/Linux.antt =====
-- A control group with the four limits, and a container that ends with code 3.
use minicontainer.Base.{
  ℕ, ◌≡◌, refl, true, false, Option, none, some, [], ◌∷◌, Bytes, codes, if◌then◌else◌, str_eq,
}
use minicontainer.Base.Number.{decimal}
use minicontainer.State.Registry.{Result, ok, err}
use minicontainer.State.Identity.{contains}
use minicontainer.Linux.Cgroup.{
  Cgroup, Kernel, read_current_cgroup, write_value, verify_value, layout, apply_limits, create,
}
use minicontainer.Linux.Limits.{IsLimited, create-IsLimited}
use minicontainer.Linux.Run.{
  running, interrupted, ended, Host, Held, wait_loop, run, supervise, with_pipes, with_cgroup,
  release,
}
use minicontainer.Tests.Store.{web}

-- The files read as the limits of the container.
abbrev kernel_line : Bytes → Bytes → Option Bytes
kernel_line directory name =
    if str_eq name (codes "memory.max")
    then some (codes "134217728\n")
    else if str_eq name (codes "memory.swap.max")
    then some (codes "0\n")
    else if str_eq name (codes "cpu.max")
    then some (codes "50000 100000\n")
    else some (codes "128\n")

abbrev kernel : Kernel
kernel = record {
  skips = false;
  scope_error = none;
  lines = λ attempt. some (
      codes "1:name=systemd:/\n"
      ∷ codes "0::/system.slice/minicontainer-0123456789abcdef0123456789abcdef.scope\n"
      ∷ []);
  mkdir_works = λ path. true;
  opens = λ directory name. true;
  writes = λ directory name. some 2 ∷ some 100 ∷ [];
  closes = λ directory name. true;
  line = kernel_line;
  payload_opens = true;
  pid = 4711;
}

abbrev web_cgroup : Cgroup
web_cgroup = (create kernel web).0

web_created : create kernel web ≡ (web_cgroup, none)
unfolding create read_current_cgroup layout write_value verify_value apply_limits decimal contains
web_created = refl

web_active : web_cgroup.active ≡ true
unfolding create read_current_cgroup layout write_value verify_value apply_limits decimal contains
web_active = refl

create-IsLimited_example : IsLimited kernel web web_cgroup
create-IsLimited_example = create-IsLimited kernel web web_created web_active

abbrev shim_host : Host
shim_host = record {
  is_root = true;
  drops_groups = true;
  subid_error = none;
  kernel = kernel;
  prepare_error = none;
  barrier_opens = true;
  ready_opens = true;
  clones = true;
  gives_pidfd = true;
  maps_ids = true;
  network_active = true;
  network_error = none;
  barrier_writes = true;
  ready = some b'1';
  listens = true;
  writes_running = true;
  ready_writes = true;
  forwards = true;
  waits = running ∷ interrupted ∷ ended 768 ∷ [];
  last_error = none;
}

abbrev exit_of : Option (Held × Result ℕ) → Option (ℕ × Option (Bytes × ℕ))
exit_of none = none
exit_of (some (held, ok code)) = some (code, held.recorded)
exit_of (some (held, err code)) = none

-- The exit code of the container is that of the process, and it is recorded.
exit_three : exit_of (run shim_host web true) ≡ some (3, some (codes "stopped", 3))
unfolding run with_cgroup with_pipes supervise wait_loop release create read_current_cgroup layout
    write_value verify_value apply_limits decimal contains
exit_three = refl

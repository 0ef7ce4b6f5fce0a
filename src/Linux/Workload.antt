-- ===== src/Linux/Workload.antt =====
-- linux/container.c: the first process of a container, which starts the command, forwards signals to
-- it and reaps what ends; the environment of the command; and the steps before execvp.
use minicontainer.Base.{
  ℕ, ◌+◌, ◌/◌, ◌%◌, Bool, not, Option, none, some, List, [], ◌∷◌, Bytes, codes, ◌==◌, if◌then◌else◌,
  ◌>>=◌, is_some, break_at, str_eq,
}
use minicontainer.Launch.{RunConfig, denied_names}

-- setenv replaces a value.
abbrev pub Environment : Type 0
Environment = Bytes → Option Bytes

abbrev pub set_variable : Environment → Bytes → Bytes → Environment
set_variable environment key value =
    λ other. if str_eq other key then some value else environment other

-- Whether clearenv returns 0, and whether setenv does for a name and a value, the strndup before it
-- included.
pub record Setter : Type 0 where
  pub clears : Bool
  pub sets : Bytes → Bytes → Bool

abbrev pub try_set : Setter → Bytes → Bytes → Environment → Option Environment
try_set S key value environment =
    if S.sets key value then some (set_variable environment key value) else none

abbrev pub base_environment : Setter → RunConfig → Option Environment
base_environment S config =
    if not S.clears
    then none
    else (try_set S (codes "PATH")
          (codes "/usr/local/sbin:/usr/local/bin:/usr/sbin:/usr/bin:/sbin:/bin") (λ key. none)
        >>= λ e1.
            try_set S (codes "HOME") (if config.options.user == 0 then codes "/root" else codes "/")
              e1
            >>= try_set S (codes "HOSTNAME") config.hostname)

-- An assignment has a '='; the source does not look whether strchr finds one.
abbrev pub assign_one : Setter → Bytes × Option Bytes → Environment → Option Environment
assign_one S (key, none) environment = some environment
assign_one S (key, some value) environment = try_set S key value environment

unfoldable pub assign_all : Setter → List Bytes → Environment → Option Environment
assign_all S [] environment = some environment
assign_all S (assignment ∷ assignments) environment =
    assign_one S (break_at b'=' assignment) environment >>= assign_all S assignments

-- `none` where it returns -1.
unfoldable pub install_environment : Setter → RunConfig → Option Environment
install_environment S config = base_environment S config >>= assign_all S config.options.environment

-- The steps of the workload up to execvp, with what they are called on.
pub data Step : Type 0 where
  new_session : Step
  change_directory : Bytes → Step
  prepare_security : ℕ → Step
  set_group : ℕ → Step
  set_user : ℕ → Step
  set_environment : RunConfig → Step
  apply_security : ℕ → List Bytes → Step
  close_descriptors : Step
  execute : List Bytes → Step

-- What execvp does: it does not return, or fails with ENOENT or another error.
pub data Exec : Type 0 where
  executes not_found not_executable : Exec

abbrev pub exec_code : Exec → Option ℕ
exec_code executes = none
exec_code not_found = some 127
exec_code not_executable = some 126

-- A step that is tried, and the rest if it works; the workload ends with code 125 if it does not.
abbrev pub try_step : Bool → Step → List Step × Option ℕ → List Step × Option ℕ
try_step works step (steps, code) = if works then (step ∷ steps, code) else ([], some 125)

pub record Process : Type 0 where
  pub starts_session : Bool
  pub changes_directory : Bool
  pub prepares : Bool
  pub sets_group : Bool
  pub sets_user : Bool
  pub setter : Setter
  pub applies : Bool
  pub exec : Exec

-- The steps that the workload has done, and the code that it ends with before the command runs.
unfoldable pub workload : Process → RunConfig → List Step × Option ℕ
workload P config =
    let o = config.options in
    try_step P.starts_session new_session (
      try_step P.changes_directory (change_directory o.workdir) (
        try_step P.prepares (prepare_security o.capability_mask) (
          try_step P.sets_group (set_group o.group) (
            try_step P.sets_user (set_user o.user) (
              try_step (is_some (install_environment P.setter config)) (set_environment config) (
                try_step P.applies
                  (apply_security o.capability_mask (denied_names o.seccomp_denies))
                  (close_descriptors ∷ execute config.command ∷ [], exec_code P.exec)))))))

-- What sigwaitinfo returns: EINTR, another error, SIGCHLD with the children that waitpid then reaps,
-- each with whether it is the workload, or another signal.
pub data Received : Type 0 where
  interrupted failed : Received
  children : List (Bool × ℕ) → Received
  signal : ℕ → Received

-- The status of the workload, as the last that is reaped.
abbrev pub reap : List (Bool × ℕ) → Option ℕ → Option ℕ
reap [] status = status
reap ((own, ended) ∷ more) status = reap more (if own then some ended else status)

-- WEXITSTATUS or 128 and the signal, and 125 for neither.
abbrev pub init_code : ℕ → ℕ
init_code status =
    if status % 128 == 0
    then status / 256 % 256
    else if status % 128 == 127
    then 125
    else 128 + status % 128

-- The loop: the signals that are sent to the workload, the last SIGKILL where sigwaitinfo fails, and
-- the code of the process. `none`: it has not ended.
unfoldable pub supervise_loop : List Received → List ℕ × Option ℕ
supervise_loop [] = ([], none)
supervise_loop (interrupted ∷ events) = supervise_loop events
supervise_loop (failed ∷ events) = (9 ∷ [], some 125)
supervise_loop (signal number ∷ events) =
    let (sent, code) = supervise_loop events in (number ∷ sent, code)
supervise_loop (children reaped ∷ events) =
    let later = supervise_loop events in
    elim (reap reaped none) [ none ↦ later | some status ↦ ([], some (init_code status)) ]

-- The first process: whether the signals are blocked and the fork works, and what is received.
unfoldable pub supervise_workload : Bool → Bool → List Received → List ℕ × Option ℕ
supervise_workload blocks forks events =
    if not blocks
    then ([], some 125)
    else if not forks
    then ([], some 125)
    else supervise_loop events

-- ===== src/Cli/Commands.antt =====
-- cli/main.c: the commands kill, stop, rm, start and gc, as sequences of calls on the registry. Where
-- a call fails the command ends with the code of the error, which is 0 if the call sets none.
use minicontainer.Base.{
  ℕ, zero, suc, ◌+◌, ◌*◌, ◌%◌, ◌^◌, Bool, true, false, not, ◌||◌, Option, none, some, List, [], ◌∷◌,
  Bytes, codes, length, ◌==◌, ltb, if◌then◌else◌, ◌>>=◌, str_eq,
}
use minicontainer.Resource.{parse_positive_u64}
use minicontainer.Launch.{RunConfig}
use minicontainer.State.Json.{Json}
use minicontainer.State.Registry.{
  World, Result, ok, err, exit_conflict, exit_runtime, path_max, resolve,
}
use minicontainer.State.Identity.{Reply, get_status, signal}
use minicontainer.State.Reconcile.{Outcome, reconcile}
use minicontainer.State.Load.{load_config}
use minicontainer.State.Save.{Calls, directory_fits, make_directory, remove}

abbrev pub exit_usage : ℕ
exit_usage = 2

abbrev pub exit_permission : ℕ
exit_permission = 6

abbrev pub sigterm : ℕ
sigterm = 15

abbrev pub sigkill : ℕ
sigkill = 9

abbrev is_either : Bytes → Bytes → Bytes → Bool
is_either value a b = str_eq value a || str_eq value b

unfoldable pub signal_number : Bytes → Option ℕ
signal_number value =
    if is_either value (codes "TERM") (codes "SIGTERM")
    then some sigterm
    else if is_either value (codes "KILL") (codes "SIGKILL")
    then some sigkill
    else if is_either value (codes "INT") (codes "SIGINT")
    then some 2
    else if is_either value (codes "HUP") (codes "SIGHUP")
    then some 1
    else if is_either value (codes "QUIT") (codes "SIGQUIT")
    then some 3
    else none

-- The arguments behind the name of the command, the reference last.
abbrev kill_arguments : List Bytes → Option (ℕ × Bytes)
kill_arguments (reference ∷ []) = some (sigkill, reference)
kill_arguments (flag ∷ value ∷ reference ∷ []) =
    if str_eq flag (codes "--signal")
    then (signal_number value >>= λ number. some (number, reference))
    else none
kill_arguments other = none

abbrev stop_arguments : List Bytes → Option (ℕ × Bytes)
stop_arguments (reference ∷ []) = some (10, reference)
stop_arguments (flag ∷ value ∷ reference ∷ []) =
    if str_eq flag (codes "--time")
    then (parse_positive_u64 value 3600 >>= λ seconds. some (seconds, reference))
    else none
stop_arguments other = none

abbrev pub rm_arguments : List Bytes → Option (Bool × Bytes)
rm_arguments (reference ∷ []) = some (false, reference)
rm_arguments (flag ∷ reference ∷ []) =
    if str_eq flag (codes "--force") then some (true, reference) else none
rm_arguments other = none

abbrev pub is_running : Bytes → Bool
is_running status = str_eq status (codes "running")

module _ (J : Json) where
  -- What the system and the other processes do while a command runs: whether the state directory is
  -- made and the locks are taken, and the registry as the later rounds of a loop, and the second part
  -- of `stop`, find it.
  pub record System : Type 0 where
    pub is_root : Bool
    pub calls : Calls J
    pub takes_registry : Bool
    pub takes_registry_again : Bool
    pub takes_container : Bool
    pub reconciled : Bytes → Outcome
    pub runtime_dir_length : ℕ
    pub reply : ℕ → Bytes → Reply
    pub poll : ℕ → World J
    pub launch : RunConfig → Result ℕ

  -- The registry after a call, and what the call returns.
  abbrev pub Call {ℓ} : Type ℓ → Type ℓ
  Call A = World J × Result A

  -- `a != 0 || b != 0`: the next call is made where this one returns 0.
  abbrev pub then_call {ℓ κ} : {A : Type ℓ} {B : Type κ} → Call A → (World J → A → Call B) → Call B
  then_call (w, ok a) next = next w a
  then_call (w, err code) next = (w, err code)

  -- A call that fails with MC_EXIT_RUNTIME, or returns nothing new.
  abbrev pub unless_taken : Bool → World J → Call Bool
  unless_taken true w = (w, ok true)
  unless_taken false w = (w, err exit_runtime)

  abbrev pub code_call : World J × Option ℕ → Call Bool
  code_call (w, none) = (w, ok true)
  code_call (w, some code) = (w, err code)

  -- mc_state_container_lock: the lock is "%s/containers/%s/container.lock".
  unfoldable pub container_lock : System → World J → Bytes → Call Bool
  container_lock S w id =
      if not (directory_fits J w id)
      then (w, err exit_runtime)
      else (elim S.calls.mkdir_error as (λ _. Call Bool) [
        | some code ↦ (w, err (if code == 0 then exit_runtime else code))
        | none ↦
            let made = make_directory J w id in
            if ltb (w.state_dir_length + 27 + length id) path_max
            then unless_taken S.takes_container made
            else (made, err exit_runtime)
      ])

  abbrev pub reconcile_call : System → World J → Call Bool
  reconcile_call S w =
      let swept = reconcile J S.reconciled w in
      if swept.status == 0 then (swept.world, ok true) else (swept.world, err swept.status)

  abbrev pub signal_call : System → World J → ℕ → Bytes → Call Bool
  signal_call S w number id = elim (signal J w S.runtime_dir_length (S.reply number) id) [
    | ok acknowledged ↦ (w, ok true)
    | err code ↦ (w, err code)
  ]

  -- The exit code of the process.
  abbrev pub exit_code {ℓ} : {A : Type ℓ} → Result A → ℕ
  exit_code (ok a) = 0
  exit_code (err code) = code

  unfoldable pub kill : System → World J → List Bytes → Call Bool
  kill S w arguments = elim (kill_arguments arguments) as (λ _. Call Bool) [
    | none ↦ (w, err exit_usage)
    | some (number, reference) ↦ then_call (unless_taken S.takes_registry w) λ w _.
        then_call (w, resolve J w reference)
          λ w id. then_call (container_lock S w id) λ w _. signal_call S w number id
  ]

  -- Whether a round of the loop of `stop` finds the container stopped.
  abbrev has_stopped : World J → Bytes → Bool
  has_stopped w id = elim (get_status J w id) [
    | ok (status, pid) ↦ not (is_running status)
    | err code ↦ false
  ]

  abbrev pub await_stop : System → Bytes → ℕ → ℕ → Option (World J)
  await_stop S id zero attempt = none
  await_stop S id (suc rounds) attempt =
      let later = await_stop S id rounds (attempt + 1) in
      if has_stopped (S.poll attempt) id then some (S.poll attempt) else later

  -- The number of rounds is computed with 64 bits, and then cast to 32.
  unfoldable pub stop : System → World J → List Bytes → Call Bool
  stop S w arguments = elim (stop_arguments arguments) as (λ _. Call Bool) [
    | none ↦ (w, err exit_usage)
    | some (seconds, reference) ↦ then_call (unless_taken S.takes_registry w) λ w _.
        then_call (w, resolve J w reference)
          λ w id. then_call (container_lock S w id) λ w _.
            then_call (signal_call S w sigterm id) λ w _.
              let rounds = seconds * 10 % 2 ^ 64 % 2 ^ 32 in
              elim (await_stop S id rounds 0) as (λ _. Call Bool) [
                | some stopped ↦ (stopped, ok true)
                | none ↦
                    then_call (unless_taken S.takes_registry_again (S.poll rounds))
                      λ w _. then_call (container_lock S w id) λ w _. signal_call S w sigkill id
              ]
  ]

  -- The local variable `status` after a call of mc_state_get_status.
  abbrev pub status_after : World J → Bytes → Bytes → Bytes
  status_after w id before = elim (get_status J w id) [
    | ok (status, pid) ↦ status
    | err code ↦ before
  ]

  -- The loop of a forced rm: the registry as it is found last, and the variable `status`.
  unfoldable pub await_kill : System → Bytes → ℕ → ℕ → World J → Bytes → World J × Bytes
  await_kill S id zero attempt w status = (w, status)
  await_kill S id (suc rounds) attempt w status =
      let found = S.poll attempt in
      let later = await_kill S id rounds (attempt + 1) found (status_after found id status) in
      elim (get_status J found id) as (λ _. World J × Bytes) [
        | err code ↦ later
        | ok (read, pid) ↦ if is_running read then later else (found, read)
      ]

  -- A container that is running is removed only by force, and only once it is found stopped.
  unfoldable pub rm_running : System → Bool → World J → Bytes → Bytes → Call Bool
  rm_running S force w id status =
      if not (is_running status)
      then (w, ok true)
      else if not force
      then (w, err exit_conflict)
      else then_call (signal_call S w sigkill id) λ w _.
        let (found, last) = await_kill S id 100 0 w status in
        if is_running last then (found, err exit_runtime) else (found, ok true)

  unfoldable pub rm_found : System → Bool → World J → Bytes → Call Bytes
  rm_found S force w id = then_call (container_lock S w id) λ w _.
      then_call (w, get_status J w id)
        λ w (status, pid).
          then_call (rm_running S force w id status)
            λ w _. then_call (code_call (remove J S.calls w id)) λ w _. (w, ok id)

  -- The container that is removed.
  unfoldable pub rm : System → World J → List Bytes → Call Bytes
  rm S w arguments = elim (rm_arguments arguments) as (λ _. Call Bytes) [
    | none ↦ (w, err exit_usage)
    | some (force, reference) ↦ then_call (unless_taken S.takes_registry w) λ w _.
        then_call (reconcile_call S w)
          λ w _. then_call (w, resolve J w reference) λ w id. rm_found S force w id
  ]

  unfoldable pub startable : Bytes → Bool
  startable status = str_eq status (codes "created") || str_eq status (codes "stopped")

  -- The exit code of the container, of a detached one the 0 of the shim that is ready.
  unfoldable pub start : System → World J → Bytes → Call ℕ
  start S w reference =
      if not S.is_root
      then (w, err exit_permission)
      else then_call (unless_taken S.takes_registry w) λ w _. then_call (reconcile_call S w) λ w _.
        then_call (w, load_config J w reference)
          λ w stored. then_call (container_lock S w stored.id) λ w _.
            then_call (w, get_status J w stored.id)
              λ w (status, pid).
                if startable status
                then (
                  w,
                  S.launch (record stored { options = record stored.options { detach = true } }),
                )
                else (w, err exit_conflict)

  unfoldable pub gc : System → World J → Call Bool
  gc S w =
      if not S.is_root
      then (w, err exit_permission)
      else then_call (unless_taken S.takes_registry w) λ w _. reconcile_call S w

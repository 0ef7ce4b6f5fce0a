-- ===== src/State/Identity.antt =====
-- state/store.c: the status of a container, and the processes that the state records: a process
-- number counts only together with the start time of its process.
use minicontainer.Base.{
  ℕ, ◌+◌, ◌-◌, ◌%◌, ◌^◌, Bool, not, ◌&&◌, ◌||◌, Option, none, some, [], ◌∷◌, Bytes, codes, length,
  ◌==◌, leb, ltb, if◌then◌else◌, ◌>>=◌, starts_with, take,
}
use minicontainer.State.Json.{Json}
use minicontainer.State.Registry.{
  World, state, Result, ok, err, exit_conflict, exit_not_found, exit_runtime, path_fits, read,
  string_is, resolve, path_max,
}

abbrev pub bind_result {ℓ κ} : {A : Type ℓ} {B : Type κ} → Result A → (A → Result B) → Result B
bind_result (ok a) f = f a
bind_result (err code) f = err code

-- strstr(s, part) != NULL
unfoldable pub contains : Bytes → Bytes → Bool
contains part [] = starts_with part []
contains part (c ∷ s) = starts_with part (c ∷ s) || contains part s

-- The answer of the shim on its control socket: nothing where a call of socket, connect, send or
-- recv fails.
abbrev pub Reply : Type 0
Reply = Option Bytes

-- sizeof(address.sun_path)
abbrev pub sun_path_size : ℕ
sun_path_size = 108

module _ (J : Json) where
  -- The cast to pid_t, of 32 bits: a positive process number.
  abbrev pub pid_of : J.Value → ℕ
  pid_of v = J.get_int64 v % 2 ^ 32

  abbrev pub is_positive : ℕ → Bool
  is_positive pid = ltb 0 pid && ltb pid (2 ^ 31)

  -- pid > 0, the start time is known, and the process has it.
  abbrev pub is_alive : World J → ℕ → ℕ → Bool
  is_alive w pid start = is_positive pid && not (start == 0) && w.start_time pid == start

  -- The document state.json of a container.
  abbrev pub state_of : World J → Bytes → Option J.Value
  state_of w id = if path_fits J w id state then read J w id state else none

  -- The status that is stored, and the process number of the shim (0 where there is none).
  unfoldable pub get_status : World J → Bytes → Result (Bytes × ℕ)
  get_status w id = elim (state_of w id) [
    | none ↦ err exit_not_found
    | some root ↦ elim (J.get root (codes "status")) [
      | none ↦ err exit_not_found
      | some value ↦
          if leb 16 (length (J.get_string value))
          then err exit_runtime
          else ok (
            J.get_string value,
            elim (J.get root (codes "shim_pid")) [ none ↦ 0 | some pid ↦ pid_of pid ],
          )
    ]
  ]

  -- A document whose status is "running".
  abbrev pub running : Option J.Value → Option J.Value
  running none = none
  running (some root) =
      if string_is J (J.get root (codes "status")) (codes "running") then some root else none

  -- The process that a document records under two keys.
  abbrev pub recorded : J.Value → Bytes → Bytes → Option (ℕ × ℕ)
  recorded root pid_key start_key = J.get root pid_key >>= λ pid.
      J.get root start_key >>= λ start. some (pid_of pid, J.get_uint64 start)

  -- The exchange with the shim, once its identity is established.
  abbrev pub exchange : Reply → Bytes → Result Bytes
  exchange none id = err exit_runtime
  exchange (some reply) id =
      if contains (codes "\"ok\":true") reply then ok id else err exit_runtime

  abbrev pub signal_shim : World J → ℕ → (Bytes → Reply) → Bytes → Option (ℕ × ℕ) → Result Bytes
  signal_shim w runtime_dir_length reply id none = err exit_conflict
  signal_shim w runtime_dir_length reply id (some (pid, start)) =
      if not (is_alive w pid start)
      then err exit_conflict
      else if leb sun_path_size (runtime_dir_length + length id + 14)
      then err exit_conflict
      else exchange (reply id) id

  -- mc_state_signal: the container whose shim has acknowledged the signal. Where the container is
  -- not found the error is replaced by "not running". The socket is "%s/%s/control.sock".
  unfoldable pub signal : World J → ℕ → (Bytes → Reply) → Bytes → Result Bytes
  unfolding contains
  signal w runtime_dir_length reply reference = elim (resolve J w reference) [
    | err code ↦ err exit_conflict
    | ok id ↦ elim (running (state_of w id)) [
      | none ↦ err exit_conflict
      | some root ↦
          signal_shim w runtime_dir_length reply id
            (recorded root (codes "shim_pid") (codes "shim_start_time"))
    ]
  ]

  pub record Runtime : Type 0 where
    pub id : Bytes
    pub init_pid : ℕ
    pub init_start_time : ℕ
    pub cgroup : Bytes

  abbrev pub live_runtime : World J → Bytes → ℕ × ℕ → Option J.Value → Result Runtime
  live_runtime w id (pid, start) none = err exit_conflict
  live_runtime w id (pid, start) (some cgroup) =
      if is_alive w pid start
      then ok (record {
        id = id;
        init_pid = pid;
        init_start_time = start;
        cgroup = take (path_max - 1) (J.get_string cgroup);
      })
      else err exit_conflict

  -- mc_state_runtime
  unfoldable pub runtime : World J → Bytes → Result Runtime
  runtime w reference = elim (resolve J w reference) [
    | err code ↦ err exit_conflict
    | ok id ↦ elim (running (state_of w id)) [
      | none ↦ err exit_conflict
      | some root ↦ elim (recorded root (codes "init_pid") (codes "init_start_time")) [
        | none ↦ err exit_conflict
        | some process ↦ live_runtime w id process (J.get root (codes "cgroup_path"))
      ]
    ]
  ]

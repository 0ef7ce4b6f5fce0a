-- ===== src/Linux/Confined.antt =====
-- linux/container.c: the command runs only behind all steps that confine it; it has the environment that
-- was asked for, and its exit code becomes that of the container.
use minicontainer.Base.{
  ℕ, ◌≡◌, ◌≢◌, refl, sym, ap, ◌∙◌, Bool, true, false, Option, none, some, List, [], ◌∷◌, ◌++◌,
  Bytes, All, break_at, break_at-append, Lacks, str_eq_iff, str_eq_refl, not_iff, subst,
  some-injective, map, ◌⊎◌, inl, inr, not, codes, ◌==◌, if◌then◌else◌, ◌>>=◌, is_some,
}
use minicontainer.Launch.{RunConfig, denied_names}
use minicontainer.Linux.Workload.{
  Environment, set_variable, base_environment, assign_all, install_environment, Step, new_session,
  change_directory, prepare_security, set_group, set_user, set_environment, apply_security, execute,
  Exec, exec_code, try_step, Process, workload, Received, interrupted, failed, children, signal,
  reap, supervise_loop, init_code, close_descriptors, Setter, try_set, assign_one,
}

-- The steps that can fail, in their order, each with whether it works.
abbrev pub attempts : Process → RunConfig → List (Bool × Step)
attempts P config =
    let o = config.options in
    (P.starts_session, new_session)
    ∷ (P.changes_directory, change_directory o.workdir)
    ∷ (P.prepares, prepare_security o.capability_mask)
    ∷ (P.sets_group, set_group o.group)
    ∷ (P.sets_user, set_user o.user)
    ∷ (is_some (install_environment P.setter config), set_environment config)
    ∷ (P.applies, apply_security o.capability_mask (denied_names o.seccomp_denies))
    ∷ []

abbrev pub Works : Bool × Step → Type 0
Works (works, step) = works ≡ true

abbrev pub step_of : Bool × Step → Step
step_of (works, step) = step

-- Every step works, and the last ones follow them; or one does not, and the workload ends with 125 and
-- has done the steps before it only.
pub data IsConfined (tries : List (Bool × Step)) (last : List Step) (exec : Exec)
    : List Step × Option ℕ → Type 0 where
  all_done :
      All Works tries → IsConfined tries last exec (map step_of tries ++ last, exec_code exec)
  stopped :
      (before : List (Bool × Step)) (step : Step) (rest : List (Bool × Step))
      → tries ≡ before ++ ((false, step) ∷ rest)
      → All Works before
      → IsConfined tries last exec (map step_of before, some 125)

try_step-IsConfined :
    (works : Bool) (step : Step) (tries : List (Bool × Step)) (last : List Step) (exec : Exec)
    (m : List Step × Option ℕ)
    → IsConfined tries last exec m
    → IsConfined ((works, step) ∷ tries) last exec (try_step works step m)
try_step-IsConfined false step tries last exec (done, code) h = stopped [] step tries refl tt
try_step-IsConfined true step tries last exec _ (all_done works) = all_done (refl, works)
try_step-IsConfined true step tries last exec _ (stopped before failed_step rest e works) =
    stopped ((true, step) ∷ before) failed_step rest (ap (λ t. (true, step) ∷ t) e) (refl, works)

-- The command is executed exactly where the new session, the directory, the reduced capabilities, the
-- group, the user, the environment and the system call filter have all worked, behind them and in this
-- order; where one of them fails, the workload ends with 125 and has done the steps before the first
-- that fails, and nothing else.
pub workload-IsConfined :
    (P : Process) (config : RunConfig)
    → IsConfined
        (attempts P config)
        (close_descriptors ∷ execute config.command ∷ [])
        P.exec
        (workload P config)
unfolding workload
workload-IsConfined P config = next (next (next (next (next (next (next (all_done tt)))))))
  where
    next :
        {works : Bool} {step : Step} {tries : List (Bool × Step)} {m : List Step × Option ℕ}
        → IsConfined tries (close_descriptors ∷ execute config.command ∷ []) P.exec m
        → IsConfined
            ((works, step) ∷ tries)
            (close_descriptors ∷ execute config.command ∷ [])
            P.exec
            (try_step works step m)
    next {works} {step} {tries} {m} h =
        try_step-IsConfined works step tries (close_descriptors ∷ execute config.command ∷ [])
          P.exec m h

-- An assignment of another variable.
abbrev pub SetsOther : Bytes → Bytes → Type 0
SetsOther key assignment = (break_at b'=' assignment).0 ≢ key

-- A call that install_environment makes has failed.
abbrev pub Fails : Setter → Type 0
Fails S = (S.clears ≡ false) ⊎ ((name : Bytes) × (text : Bytes) × (S.sets name text ≡ false))

-- The variable has the value, or install_environment has failed, as one of its calls has.
abbrev pub Sees : Setter → Bytes → Bytes → Option Environment → Type 0
Sees S key value none = Fails S
Sees S key value (some environment) = environment key ≡ some value

module _ (S : Setter) (key value : Bytes) where
  set-Sees :
      (name text : Bytes) (environment : Environment) (next : Environment → Option Environment)
      → Sees S key value (next (set_variable environment name text))
      → Sees S key value (try_set S name text environment >>= next)
  set-Sees name text environment next h = go (S.sets name text) refl
    where
      go :
          (b : Bool)
          → S.sets name text ≡ b
          → Sees S key value
              ((if b then some (set_variable environment name text) else none) >>= next)
      go true e = h
      go false e = inr (name, text, e)

  nested-Sees :
      (name text : Bytes) (environment : Environment) (next last : Environment → Option Environment)
      → ((after : Environment) → Sees S key value (next after >>= last))
      → Sees S key value ((try_set S name text environment >>= next) >>= last)
  nested-Sees name text environment next last h = go (S.sets name text) refl
    where
      go :
          (b : Bool)
          → S.sets name text ≡ b
          → Sees S key value
              (((if b then some (set_variable environment name text) else none) >>= next) >>= last)
      go true e = h _
      go false e = inr (name, text, e)

  one-Sees :
      (p : Bytes × Option Bytes) (environment : Environment)
      (next : Environment → Option Environment)
      → ((after : Environment) → Sees S key value (next after))
      → Sees S key value (assign_one S p environment >>= next)
  one-Sees (name, none) environment next h = h environment
  one-Sees (name, some text) environment next h = set-Sees name text environment next (h _)

  other-Sees :
      (p : Bytes × Option Bytes) (environment : Environment)
      (next : Environment → Option Environment)
      → p.0 ≢ key
      → environment key ≡ some value
      → ((after : Environment) → after key ≡ some value → Sees S key value (next after))
      → Sees S key value (assign_one S p environment >>= next)
  other-Sees (name, none) environment next ne e h = h environment e
  other-Sees (name, some text) environment next ne e h =
      set-Sees name text environment next
        (h _ (rw ((not_iff _ (str_eq_iff key name)).1 (λ q. ne (sym q))) e))

  -- Assignments of other variables behind it.
  assign_all-other :
      (assignments : List Bytes) (environment : Environment)
      → All (SetsOther key) assignments
      → environment key ≡ some value
      → Sees S key value (assign_all S assignments environment)
  unfolding assign_all
  assign_all-other [] environment h e = e
  assign_all-other (assignment ∷ assignments) environment h e =
      other-Sees (break_at b'=' assignment) environment (assign_all S assignments) h.0 e
        (λ next q. assign_all-other assignments next h.1 q)

  assign_all-last :
      (before after : List Bytes) (environment : Environment)
      → Lacks b'=' key
      → All (SetsOther key) after
      → Sees S key value (assign_all S (before ++ ((key ++ (b'=' ∷ value)) ∷ after)) environment)
  unfolding assign_all
  assign_all-last [] after environment plain others =
      subst
        (λ (p : Bytes × Option Bytes).
          Sees S key value (assign_one S p environment >>= assign_all S after))
        (sym (break_at-append b'=' key value plain))
        (set-Sees key value environment (assign_all S after)
          (assign_all-other after _ others (rw (str_eq_refl key) refl)))
  assign_all-last (assignment ∷ before) after environment plain others =
      one-Sees (break_at b'=' assignment) environment _
        (λ next. assign_all-last before after next plain others)

-- The command sees the value of the last assignment of a variable, whose name has no '='; where
-- install_environment returns -1 instead, one of its calls has failed.
pub install_environment-last :
    (S : Setter) (config : RunConfig) (key value : Bytes) (before after : List Bytes)
    → Lacks b'=' key
    → config.options.environment ≡ before ++ ((key ++ (b'=' ∷ value)) ∷ after)
    → All (SetsOther key) after
    → Sees S key value (install_environment S config)
unfolding install_environment
install_environment-last S config key value before after plain e others =
    subst (λ assignments. Sees S key value (base_environment S config >>= assign_all S assignments))
      (sym e) (cleared S.clears refl)
  where
    rest : Environment → Option Environment
    rest = assign_all S (before ++ ((key ++ (b'=' ∷ value)) ∷ after))

    last : (environment : Environment) → Sees S key value (rest environment)
    last environment = assign_all-last S key value before after environment plain others

    cleared :
        (b : Bool)
        → S.clears ≡ b
        → Sees S key value (
            (if not b
              then none
              else (try_set S
                    (codes "PATH")
                    (codes "/usr/local/sbin:/usr/local/bin:/usr/sbin:/usr/bin:/sbin:/bin")
                    (λ key. none)
                  >>= λ e1.
                      try_set S
                        (codes "HOME")
                        (if config.options.user == 0 then codes "/root" else codes "/")
                        e1
                      >>= try_set S (codes "HOSTNAME") config.hostname))
            >>= rest)
    cleared false q = inl q
    cleared true q =
        nested-Sees S key value (codes "PATH")
          (codes "/usr/local/sbin:/usr/local/bin:/usr/sbin:/usr/bin:/sbin:/bin") (λ name. none) _
          rest
          (λ e1.
            nested-Sees S key value (codes "HOME")
              (if config.options.user == 0 then codes "/root" else codes "/") e1 _ rest
              (λ e2. set-Sees S key value (codes "HOSTNAME") config.hostname e2 rest (last _)))

-- The signals among what is received.
abbrev pub signals : List Received → List ℕ
signals [] = []
signals (interrupted ∷ events) = signals events
signals (failed ∷ events) = signals events
signals (children reaped ∷ events) = signals events
signals (signal number ∷ events) = number ∷ signals events

-- sigwaitinfo does not fail, and the workload is not among the children.
abbrev pub IsQuiet : Received → Type 0
IsQuiet interrupted = Unit {0}
IsQuiet failed = ⊥
IsQuiet (children reaped) = reap reaped none ≡ none
IsQuiet (signal number) = Unit {0}

ended :
    (o : Option ℕ) (later : List ℕ × Option ℕ) {status : ℕ}
    → o ≡ some status
    → ◌≡◌ {A = List ℕ × Option ℕ}
        (elim o [ none ↦ later | some s ↦ ([], some (init_code s)) ])
        ([], some (init_code status))
ended none later e = cc
ended (some s) later {status} e = ap (λ t. ([], some (init_code t))) (some-injective s status e)

quiet :
    (o : Option ℕ) (later : List ℕ × Option ℕ)
    → o ≡ none
    → ◌≡◌ {A = List ℕ × Option ℕ}
        (elim o [ none ↦ later | some s ↦ ([], some (init_code s)) ])
        later
quiet none later e = refl
quiet (some s) later e = cc

-- Every signal that is received before the workload ends is sent to it, in their order, and the process
-- ends with the code of the workload.
pub supervise_loop-signals :
    (before after : List Received) (reaped : List (Bool × ℕ)) {status : ℕ}
    → All IsQuiet before
    → reap reaped none ≡ some status
    → supervise_loop (before ++ (children reaped ∷ after))
      ≡ (signals before, some (init_code status))
unfolding supervise_loop
supervise_loop-signals [] after reaped {status} h e =
    ended (reap reaped none) (supervise_loop after) e
supervise_loop-signals (interrupted ∷ before) after reaped {status} h e =
    supervise_loop-signals before after reaped {status = status} h.1 e
supervise_loop-signals (failed ∷ before) after reaped {status} h e = absurd h.0
supervise_loop-signals (children others ∷ before) after reaped {status} h e =
    quiet (reap others none) _ h.0
    ∙ supervise_loop-signals before after reaped {status = status} h.1 e
supervise_loop-signals (signal number ∷ before) after reaped {status} h e =
    rw (supervise_loop-signals before after reaped {status = status} h.1 e) refl

-- ===== src/Linux/Limits.antt =====
-- linux/cgroup.c: a control group that is active has the limits of the configuration.
use minicontainer.Base.{
  ℕ, zero, suc, ◌+◌, ◌≡◌, refl, sym, ap, ◌∙◌, Bool, true, false, not, ◌&&◌, Option, none, some, [],
  ◌++◌, Bytes, codes, length, ltb, if◌then◌else◌, ◌>>=◌, ◌>>◌, guard, take, str_eq, str_eq_iff,
  &&-eq-true, some-injective, subst, >>=-eq-some,
}
use minicontainer.Base.Number.{decimal}
use minicontainer.Launch.{RunConfig}
use minicontainer.State.Identity.{contains}
use minicontainer.Image.Store.{first_line}
use minicontainer.Linux.Cgroup.{
  Cgroup, Kernel, read_current_cgroup, join_path, unit_name, verify_value, await_scope, layout,
  delegates, limits, apply_limits, program, create,
}

module _ (K : Kernel) where
  -- The file of the directory holds a line that reads as the value.
  abbrev HasValue : Bytes → Bytes → Bytes → Type 0
  HasValue directory name value =
      (line : Bytes) × (K.line directory name ≡ some line) × (first_line (take 255 line) ≡ value)

  -- The payload is below a control group whose path names the scope of the container, and the four
  -- limits read as they were written.
  pub record IsLimited (config : RunConfig) (cgroup : Cgroup) : Type 0 where
    pub relative : Bytes
    pub own : contains (unit_name config.id) relative ≡ true
    pub payload :
        cgroup.payload ≡ take 4095 (codes "/sys/fs/cgroup" ++ relative) ++ codes "/payload"
    pub memory : HasValue cgroup.payload (codes "memory.max") (decimal config.options.memory_max)
    pub swap : HasValue cgroup.payload (codes "memory.swap.max") (decimal config.options.swap_max)
    pub cpu :
        HasValue cgroup.payload
          (codes "cpu.max")
          (decimal config.options.cpu_quota ++ codes " 100000")
    pub pids : HasValue cgroup.payload (codes "pids.max") (decimal config.options.pids_max)

  limits-HasValue :
      (payload name value : Bytes)
      → limits K payload name value ≡ true
      → HasValue payload name value
  unfolding verify_value
  limits-HasValue payload name value h =
      go (K.line payload name) refl (&&-eq-true _ _ (&&-eq-true _ _ h).1).1
    where
      go :
          (o : Option Bytes)
          → K.line payload name ≡ o
          → (elim o as (λ _. Bool) [
            | none ↦ false
            | some line ↦ str_eq (first_line (take 255 line)) value
          ])
            ≡ true
          → HasValue payload name value
      go none e q = cc
      go (some line) e q = (line, e, (str_eq_iff (first_line (take 255 line)) value).0 q)

  await_scope-contains :
      (unit : Bytes) (rounds attempt : ℕ) {relative : Bytes}
      → await_scope K unit rounds attempt ≡ some relative
      → contains unit relative ≡ true
  await_scope-contains unit zero attempt h = cc
  await_scope-contains unit (suc rounds) attempt {relative} h =
      go (read_current_cgroup (K.lines attempt)) (await_scope-contains unit rounds (attempt + 1)) h
    where
      found :
          (path : Bytes) (b : Bool) {later : Option Bytes}
          → contains unit path ≡ b
          → (later ≡ some relative → contains unit relative ≡ true)
          → (if b then some path else later) ≡ some relative
          → contains unit relative ≡ true
      found path true e ih q = ap (contains unit) (sym (some-injective path relative q)) ∙ e
      found path false e ih q = ih q

      go :
          (o : Option Bytes) {later : Option Bytes}
          → (later ≡ some relative → contains unit relative ≡ true)
          → (elim o as (λ _. Option Bytes) [
            | none ↦ later
            | some path ↦ if contains unit path then some path else later
          ])
            ≡ some relative
          → contains unit relative ≡ true
      go none ih q = ih q
      go (some path) ih q = found path (contains unit path) refl ih q

  contradiction : {A : Type 0} → ◌≡◌ {A = Bool} false true → A
  contradiction {A} e = absurd (clash e)
    where
      clash : ◌≡◌ {A = Bool} false true → ⊥
      clash q = cc

  failed :
      {A : Type 0} {c cgroup : Cgroup} {code : ℕ}
      → ◌≡◌ {A = Cgroup × Option ℕ} (c, some code) (cgroup, none)
      → A
  failed {A} {c} {cgroup} {code} e = absurd (clash (ap (λ m. m.1) e))
    where
      clash : some code ≡ none → ⊥
      clash q = cc

  apply_limits-IsLimited :
      (config : RunConfig) (relative : Bytes) (cgroup after : Cgroup)
      → contains (unit_name config.id) relative ≡ true
      → cgroup.payload ≡ take 4095 (codes "/sys/fs/cgroup" ++ relative) ++ codes "/payload"
      → after.payload ≡ cgroup.payload
      → apply_limits K config cgroup.payload ≡ true
      → IsLimited config after
  unfolding apply_limits
  apply_limits-IsLimited config relative cgroup after own payload same h =
      let (memory, h1) = &&-eq-true _ _ h in
      let (swap, h2) = &&-eq-true _ _ h1 in
      let (cpu, pids) = &&-eq-true _ _ h2 in
      record {
        relative = relative;
        own = own;
        payload = same ∙ payload;
        memory = at _ _ (limits-HasValue cgroup.payload _ _ memory);
        swap = at _ _ (limits-HasValue cgroup.payload _ _ swap);
        cpu = at _ _ (limits-HasValue cgroup.payload _ _ cpu);
        pids = at _ _ (limits-HasValue cgroup.payload _ _ pids);
      }
    where
      at :
          (name value : Bytes)
          → HasValue cgroup.payload name value
          → HasValue after.payload name value
      at name value v = subst (λ p. HasValue p name value) (sym same) v

  program-IsLimited :
      (config : RunConfig) (relative : Bytes) (cgroup : Cgroup) {after : Cgroup}
      → contains (unit_name config.id) relative ≡ true
      → cgroup.payload ≡ take 4095 (codes "/sys/fs/cgroup" ++ relative) ++ codes "/payload"
      → program K config cgroup ≡ (after, none)
      → IsLimited config after
  program-IsLimited config relative cgroup {after} own payload e =
      go (not (delegates K cgroup)) (apply_limits K config cgroup.payload) refl
        (not K.payload_opens) e
    where
      go :
          (a b : Bool)
          → apply_limits K config cgroup.payload ≡ b
          → (c : Bool)
          → (if◌then◌else◌ {A = Cgroup × Option ℕ} a
              (cgroup, some 7)
              (if not b
                then (cgroup, some 7)
                else if c
                then (cgroup, some 7)
                else (record cgroup { payload_open = true; active = true }, none)))
            ≡ (after, none)
          → IsLimited config after
      go true b l c q = failed q
      go false false l c q = failed q
      go false true l true q = failed q
      go false true l false q =
          apply_limits-IsLimited config relative cgroup after own payload
            (ap (λ (m : Cgroup × Option ℕ). m.0.payload) (sym q)) l

  payload-layout :
      (relative : Bytes) {cgroup : Cgroup}
      → layout K relative ≡ some cgroup
      → cgroup.payload ≡ take 4095 (codes "/sys/fs/cgroup" ++ relative) ++ codes "/payload"
  unfolding layout
  payload-layout relative {cgroup} h =
      let scope = take 4095 (codes "/sys/fs/cgroup" ++ relative) in
      let (supervisor, e1, r1) = >>=-eq-some (join_path scope (codes "supervisor")) _ h in
      let (payload, e2, r2) = >>=-eq-some (join_path scope (codes "payload")) _ r1 in
      made (K.mkdir_works supervisor && K.mkdir_works payload) scope supervisor payload r2
      ∙ joined scope payload e2
    where
      made :
          (b : Bool) (scope supervisor payload : Bytes)
          → (guard b
              >> some (record {
                scope = scope;
                supervisor = supervisor;
                payload = payload;
                payload_open = false;
                active = false;
              }))
            ≡ some cgroup
          → cgroup.payload ≡ payload
      made true scope supervisor payload q =
          sym (ap (λ (c : Cgroup). c.payload) (some-injective _ cgroup q))
      made false scope supervisor payload q = cc

      joined :
          (scope payload : Bytes)
          → join_path scope (codes "payload") ≡ some payload
          → payload ≡ scope ++ codes "/payload"
      joined scope payload q = go (ltb 4096 (length scope + 7 + 2)) q
        where
          go :
              (b : Bool)
              → (if b then none else some (scope ++ codes "/payload")) ≡ some payload
              → payload ≡ scope ++ codes "/payload"
          go true q = cc
          go false q = sym (some-injective (scope ++ codes "/payload") payload q)

  -- Where mc_cgroup_create returns 0 and the control group is active, its payload is below a control
  -- group that is named for the container, and the limits of memory, swap, processor time and processes
  -- read as those of the configuration.
  pub create-IsLimited :
      (config : RunConfig) {cgroup : Cgroup}
      → create K config ≡ (cgroup, none)
      → cgroup.active ≡ true
      → IsLimited config cgroup
  unfolding create
  create-IsLimited config {cgroup} e active = go K.skips K.scope_error e
    where
      found :
          (o : Option Cgroup)
          → (await_scope K (unit_name config.id) 100 0 >>= layout K) ≡ o
          → (elim o as (λ _. Cgroup × Option ℕ) [
            | none ↦ (
              record {
                scope = [];
                supervisor = [];
                payload = [];
                payload_open = false;
                active = false;
              },
              some 7,
            )
            | some c ↦ program K config c
          ])
            ≡ (cgroup, none)
          → IsLimited config cgroup
      found none f q = failed q
      found (some c) f q =
          let (relative, awaited, made) =
            >>=-eq-some (await_scope K (unit_name config.id) 100 0) _ f in
          program-IsLimited config relative c
            (await_scope-contains (unit_name config.id) 100 0 awaited)
            (payload-layout relative made) q

      go :
          (b : Bool) (o : Option ℕ)
          → (if b
              then (
                record {
                  scope = [];
                  supervisor = [];
                  payload = [];
                  payload_open = false;
                  active = false;
                },
                none,
              )
              else (elim o as (λ _. Cgroup × Option ℕ) [
                | some code ↦ (
                  record {
                    scope = [];
                    supervisor = [];
                    payload = [];
                    payload_open = false;
                    active = false;
                  },
                  some code,
                )
                | none ↦
                    elim (await_scope K (unit_name config.id) 100 0 >>= layout K)
                      as (λ _. Cgroup × Option ℕ) [
                        | none ↦ (
                          record {
                            scope = [];
                            supervisor = [];
                            payload = [];
                            payload_open = false;
                            active = false;
                          },
                          some 7,
                        )
                        | some c ↦ program K config c
                      ]
              ]))
            ≡ (cgroup, none)
          → IsLimited config cgroup
      go true o q = contradiction (ap (λ (m : Cgroup × Option ℕ). m.0.active) q ∙ active)
      go false (some code) q = failed q
      go false none q = found _ refl q

  active-layout :
      (relative : Bytes) {cgroup : Cgroup} → layout K relative ≡ some cgroup → cgroup.active ≡ false
  unfolding layout
  active-layout relative {cgroup} h =
      let scope = take 4095 (codes "/sys/fs/cgroup" ++ relative) in
      let (supervisor, e1, r1) = >>=-eq-some (join_path scope (codes "supervisor")) _ h in
      let (payload, e2, r2) = >>=-eq-some (join_path scope (codes "payload")) _ r1 in
      made (K.mkdir_works supervisor && K.mkdir_works payload) scope supervisor payload r2
    where
      made :
          (b : Bool) (scope supervisor payload : Bytes)
          → (guard b
              >> some (record {
                scope = scope;
                supervisor = supervisor;
                payload = payload;
                payload_open = false;
                active = false;
              }))
            ≡ some cgroup
          → cgroup.active ≡ false
      made true scope supervisor payload q =
          sym (ap (λ (c : Cgroup). c.active) (some-injective _ cgroup q))
      made false scope supervisor payload q = cc

  -- A call that fails leaves no active control group.
  pub active-create :
      (config : RunConfig) {cgroup : Cgroup} {code : ℕ}
      → create K config ≡ (cgroup, some code)
      → cgroup.active ≡ false
  unfolding create
  active-create config {cgroup} {code} e = go K.skips K.scope_error e
    where
      unused : Cgroup
      unused = record {
        scope = [];
        supervisor = [];
        payload = [];
        payload_open = false;
        active = false;
      }

      same :
          {c : Cgroup} {o : Option ℕ}
          → ◌≡◌ {A = Cgroup × Option ℕ} (c, o) (cgroup, some code)
          → c.active ≡ false
          → cgroup.active ≡ false
      same {c} {o} q h = ap (λ (m : Cgroup × Option ℕ). m.0.active) (sym q) ∙ h

      works :
          {c : Cgroup} {A : Type 0} → ◌≡◌ {A = Cgroup × Option ℕ} (c, none) (cgroup, some code) → A
      works {c} {A} q = absurd (clash (ap (λ m. m.1) q))
        where
          clash : none ≡ some code → ⊥
          clash q = cc

      programmed :
          (c : Cgroup) (x y z : Bool)
          → c.active ≡ false
          → ◌≡◌ {A = Cgroup × Option ℕ}
              (if◌then◌else◌ {A = Cgroup × Option ℕ} x
                (c, some 7)
                (if y
                  then (c, some 7)
                  else if z
                  then (c, some 7)
                  else (record c { payload_open = true; active = true }, none)))
              (cgroup, some code)
          → cgroup.active ≡ false
      programmed c true y z h q = same q h
      programmed c false true z h q = same q h
      programmed c false false true h q = same q h
      programmed c false false false h q = works q

      found :
          (o : Option Cgroup)
          → (await_scope K (unit_name config.id) 100 0 >>= layout K) ≡ o
          → (elim o as (λ _. Cgroup × Option ℕ) [
            | none ↦ (unused, some 7)
            | some c ↦ program K config c
          ])
            ≡ (cgroup, some code)
          → cgroup.active ≡ false
      found none f q = same q refl
      found (some c) f q =
          let (relative, awaited, made) =
            >>=-eq-some (await_scope K (unit_name config.id) 100 0) _ f in
          programmed c (not (delegates K c)) (not (apply_limits K config c.payload))
            (not K.payload_opens) (active-layout relative made) q

      go :
          (b : Bool) (o : Option ℕ)
          → (if◌then◌else◌ {A = Cgroup × Option ℕ} b
              (unused, none)
              (elim o as (λ _. Cgroup × Option ℕ) [
                | some n ↦ (unused, some n)
                | none ↦
                    elim (await_scope K (unit_name config.id) 100 0 >>= layout K)
                      as (λ _. Cgroup × Option ℕ) [
                        | none ↦ (unused, some 7)
                        | some c ↦ program K config c
                      ]
              ]))
            ≡ (cgroup, some code)
          → cgroup.active ≡ false
      go true o q = works q
      go false (some n) q = same q refl
      go false none q = found _ refl q

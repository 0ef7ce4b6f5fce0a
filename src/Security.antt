-- ===== src/Security.antt =====
-- linux/security.c: capability names, the seccomp filter and custom seccomp profiles. libseccomp is
-- a parameter: what its calls return. mc_security_prepare and mc_security_apply, which are lists of
-- system calls, are not modelled.
pub mod Names
pub mod Capability
pub mod Narrow
pub mod Profile
unfoldable pub use Names.*
use minicontainer.Base.{
  ℕ, zero, suc, ◌+◌, ◌-◌, ◌*◌, ◌/◌, ◌%◌, ◌^◌, ◌≤◌, ◌<◌, ◌≡◌, ◌≢◌, ◌↔◌, ◌⊎◌, inl, inr, refl, sym, ap,
  ◌∙◌, Bool, true, false, not, ◌&&◌, ◌||◌, Option, none, some, List, [], ◌∷◌, ◌++◌, map, arith,
  Bytes, codes, length, All, ◌==◌, leb, ltb, if◌then◌else◌, ◌>>=◌, ◌>>◌, guard, is_some, Bool-cases,
  Option-cases,
}
use minicontainer.Base.{str_eq, starts_with, drop, any, get_elem?}

-- The comparison of an argument of a system call.
pub data Compare : Type 0 where
  equal : (argument value : ℕ) → Compare
  masked_equal : (argument mask value : ℕ) → Compare

-- What seccomp_rule_add is called with.
pub data Rule : Type 0 where
  allow : (number : ℕ) → List Compare → Rule
  fail_with : (errno number : ℕ) → Rule

-- SCMP_ACT_ALLOW, and SCMP_ACT_ERRNO with its number.
pub data Action : Type 0 where
  permit : Action
  fail : (errno : ℕ) → Action

-- What seccomp_init is called with, and the rules in the order of the calls.
pub record Filter : Type 0 where
  pub default_action : Action
  pub rules : List Rule

-- libseccomp: the number of a name (`none` for __NR_SCMP_ERROR), the macro SCMP_SYS, and whether a
-- call of seccomp_rule_add returns 0. The other fields are whether seccomp_init returns a filter, and
-- whether the attribute is set and the filter is loaded.
pub record Seccomp : Type 0 where
  pub resolve_name : Bytes → Option ℕ
  pub sys : Bytes → ℕ
  pub accepts : Rule → Bool
  pub initialises : Action → Bool
  pub loads : Filter → Bool

abbrev enosys : ℕ
enosys = 38

abbrev pub eperm : ℕ
eperm = 1

-- CLONE_NEWCGROUP | CLONE_NEWIPC | CLONE_NEWNET | CLONE_NEWNS | CLONE_NEWPID | CLONE_NEWTIME |
-- CLONE_NEWUSER | CLONE_NEWUTS
abbrev forbidden_clone : ℕ
forbidden_clone =
    0x02000000 + 0x08000000 + 0x40000000 + 0x00020000 + 0x20000000 + 0x00000080 + 0x10000000
    + 0x04000000

unfoldable pub denied_by_profile : Bytes → List Bytes → Bool
denied_by_profile name denies = any (str_eq name) denies

module _ (lib : Seccomp) where
  unfoldable pub add_rule : Rule → List Rule → Option (List Rule)
  add_rule rule filter = if lib.accepts rule then some (filter ++ (rule ∷ [])) else none

  unfoldable pub add_rules : List Rule → List Rule → Option (List Rule)
  add_rules [] filter = some filter
  add_rules (rule ∷ rules) filter = add_rule rule filter >>= add_rules rules

  -- A name that libseccomp does not know adds no rule.
  abbrev pub allow_syscall : Bytes → List Rule
  allow_syscall name = elim (lib.resolve_name name) [
    | none ↦ []
    | some number ↦ allow number [] ∷ []
  ]

  abbrev pub clone3_rules : List Rule
  clone3_rules = fail_with enosys (lib.sys (codes "clone3")) ∷ []

  abbrev pub clone_rules : List Rule
  clone_rules = allow (lib.sys (codes "clone")) (masked_equal 0 forbidden_clone 0 ∷ []) ∷ []

  abbrev family_rules : ℕ → List Rule
  family_rules family =
      allow (lib.sys (codes "socket")) (equal 0 family ∷ masked_equal 1 3 1 ∷ [])
      ∷ allow (lib.sys (codes "socket")) (equal 0 family ∷ masked_equal 1 3 2 ∷ [])
      ∷ []

  abbrev pub socket_rules : List Rule
  socket_rules =
      family_rules 1
      ++ (family_rules 2
          ++ (family_rules 10
              ++ (allow (lib.sys (codes "socket"))
                    (equal 0 16 ∷ masked_equal 1 15 3 ∷ equal 2 0 ∷ [])
                  ∷ [])))

  unfoldable pub unless_denied : List Bytes → Bytes → List Rule → List Rule → Option (List Rule)
  unfolding denied_by_profile
  unless_denied denies name rules filter =
      if denied_by_profile name denies then some filter else add_rules rules filter

  -- The loop over the allowed names.
  unfoldable pub allow_names : List Bytes → List Bytes → List Rule → Option (List Rule)
  allow_names denies [] filter = some filter
  allow_names denies (name ∷ names) filter =
      unless_denied denies name (allow_syscall name) filter >>= allow_names denies names

  -- The rules of the filter, in the order of the calls; `none` where a call fails.
  unfoldable pub seccomp_rules : List Bytes → Option (List Rule)
  unfolding allow_names
  seccomp_rules denies = allow_names denies allowed [] >>= λ f1.
      unless_denied denies (codes "clone3") clone3_rules f1 >>= λ f2.
      unless_denied denies (codes "clone") clone_rules f2 >>= λ f3.
      unless_denied denies (codes "socket") socket_rules f3

  abbrev load_filter : Filter → Option Filter
  load_filter filter = if lib.loads filter then some filter else none

  -- The filter that is in force where install_seccomp returns 0.
  unfoldable pub install_seccomp : List Bytes → Option Filter
  install_seccomp denies =
      if not (lib.initialises (fail eperm))
      then none
      else (seccomp_rules denies >>= λ rules.
          load_filter (record { default_action = fail eperm; rules = rules }))

  unfoldable pub seccomp_name_valid : Bytes → Bool
  seccomp_name_valid [] = false
  seccomp_name_valid (c ∷ name) = is_some (lib.resolve_name (c ∷ name))

-- What stat returns, and geteuid.
pub record Metadata : Type 0 where
  pub is_regular : Bool
  pub user : ℕ
  pub effective_user : ℕ
  pub permissions : ℕ
  pub size : ℕ

-- What mc_seccomp_profile_load learns of the file: the result of stat, the version and the array "deny"
-- of the document that json-c reads, `none` where there is none, and the strings of that array, `none`
-- for null.
pub record ProfileFile : Type 0 where
  pub metadata : Option Metadata
  pub version : Option ℕ
  pub deny : Option (List (Option Bytes))

-- A regular file of the own user, which S_IWGRP and S_IWOTH do not let others write, of 64 KiB at most.
abbrev pub is_trusted : Option Metadata → Bool
is_trusted none = false
is_trusted (some m) =
    m.is_regular
    && (m.user == m.effective_user
        && (m.permissions / 16 % 2 == 0 && (m.permissions / 2 % 2 == 0 && leb m.size 65536)))

module _ (lib : Seccomp) where
  -- The loop over the array; `loaded` holds the names before it.
  unfoldable pub load_names : List (Option Bytes) → List Bytes → Option (List Bytes)
  unfolding seccomp_name_valid
  load_names [] loaded = some loaded
  load_names (none ∷ names) loaded = none
  load_names (some name ∷ names) loaded =
      let rest = load_names names (loaded ++ (name ∷ [])) in
      if not (seccomp_name_valid lib name) || any (str_eq name) loaded then none else rest

  unfoldable pub load_array : List (Option Bytes) → Option (List Bytes)
  unfolding load_names
  load_array names = if ltb 128 (length names) then none else load_names names []

  unfoldable pub seccomp_profile_load : Bytes → ProfileFile → Option (List Bytes)
  unfolding load_names
  seccomp_profile_load [] file = none
  seccomp_profile_load (c ∷ path) file =
      if not (c == b'/') || not (is_trusted file.metadata)
      then none
      else (file.version >>= λ version.
          if version == 1 then (file.deny >>= λ names. load_array names) else none)

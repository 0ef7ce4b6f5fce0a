-- ===== src/Tests/Runtime.antt =====
-- Mounts, the seccomp filter and the logs.
use minicontainer.Base.{
  ℕ, ◌≤◌, ◌≡◌, ◌≢◌, ◌↔◌, refl, true, false, Option, none, some, List, [], ◌∷◌, ◌++◌, map, arith,
  Bytes, codes, All, if◌then◌else◌, str_eq, str_eq_iff, break_at,
}
use minicontainer.Validate.Path.Walk.{components}
use minicontainer.Mount.{
  Mount, bind, tmpfs, valid_target, dot_dot_loop, Host, bind_allowed, parse_bind_mount,
}
use minicontainer.Mount.Target.{IsTarget, valid_target-IsTarget, valid_target_double_slash}
use minicontainer.Mount.Specs.{IsBind, parse_bind_mount-IsBind}
use minicontainer.Security.{
  capability_parse, capability_name, Seccomp, allow, fail_with, install_seccomp, seccomp_rules,
  allow_names, unless_denied, add_rules, add_rule, denied_by_profile, ProfileFile,
  seccomp_profile_load, load_array, load_names, seccomp_name_valid, Filter, fail, eperm,
}
use minicontainer.Security.Capability.{capability_parse-capability_name}
use minicontainer.Security.Narrow.{IsNaming, number_of, install_seccomp-denied}
use minicontainer.Security.Profile.{IsFresh, seccomp_profile_load_sound, IsTrusted}
use minicontainer.Log.Pump.{
  wrote, write_all, Files, Faults, Read, chunk, make_room, write_chunk, log_pump,
}
use minicontainer.Log.Bound.{
  IsBounded, log_pump-IsBounded, log_pump-contents, IsSuffix, contents, input,
}

valid_target-IsTarget_example :
    (valid_target (codes "/scratch") ≡ true) ↔ IsTarget (codes "/scratch")
valid_target-IsTarget_example = valid_target-IsTarget (codes "/scratch")

targets :
    (valid_target (codes "/scratch") ≡ true)
    × (valid_target (codes "/a/../b") ≡ false)
    × (valid_target (codes "/a/..b") ≡ true)
    × (valid_target (codes "/proc/self") ≡ false)
    × (valid_target (codes "/process") ≡ true)
unfolding valid_target dot_dot_loop
targets = (refl, refl, refl, refl, refl)

valid_target_double_slash_example : valid_target (codes "//proc/self") ≡ true
unfolding components
valid_target_double_slash_example =
    valid_target_double_slash (codes "proc/self") (omega arith) ((λ e. cc), ((λ e. cc), tt))

abbrev scratch : Mount
scratch = record {
  type = tmpfs;
  source = none;
  target = codes "/scratch";
  size = 65536;
  readonly = false;
}

abbrev machine : Host
machine = record {
  realpath =
      λ path. if str_eq path (codes "/data/link") then some (codes "/srv/data") else some path;
  is_directory = λ path. true;
  allowed_bind_sources = some (codes "/srv" ∷ []);
}

abbrev data_mount : Mount
data_mount = record {
  type = bind;
  source = some (codes "/srv/data");
  target = codes "/data";
  size = 0;
  readonly = true;
}

data_parsed : parse_bind_mount machine (codes "/data/link:/data:ro") ≡ some data_mount
unfolding parse_bind_mount bind_allowed valid_target dot_dot_loop
data_parsed = refl

parse_bind_mount-IsBind_example :
    (bound : IsBind machine data_mount) × (bound.given ≡ codes "/data/link")
    × (rest : Bytes) × (some (codes "/data:ro") ≡ some rest)
    × (codes "/data" ≡ (break_at b':' rest).0)
parse_bind_mount-IsBind_example =
    parse_bind_mount-IsBind machine (codes "/data/link:/data:ro") data_parsed

chown : capability_name 0 ≡ some (codes "CHOWN")
unfolding capability_name
chown = refl

capability_parse-capability_name_example :
    (capability_parse (codes "CHOWN") ≡ some 0)
    × (capability_parse (codes "CAP_" ++ codes "CHOWN") ≡ some 0)
capability_parse-capability_name_example = capability_parse-capability_name 0 chown

bind_service : capability_parse (codes "CAP_NET_BIND_SERVICE") ≡ some 10
unfolding capability_parse
bind_service = refl

-- A libseccomp that knows the three names that have rules of their own, and read.
abbrev known : Bytes → Option ℕ
known name =
    if str_eq name (codes "read")
    then some 0
    else if str_eq name (codes "socket")
    then some 41
    else if str_eq name (codes "clone")
    then some 56
    else if str_eq name (codes "clone3")
    then some 435
    else none

abbrev library : Seccomp
library = record {
  resolve_name = known;
  sys = λ name. elim (known name) [ none ↦ 0 | some number ↦ number ];
  accepts = λ rule. true;
  initialises = λ action. true;
  loads = λ filter. true;
}

library-IsNaming : IsNaming library
library-IsNaming = record { distinct = distinct_names; clone3 = refl; clone = refl; socket = refl }
  where
    distinct_names :
        (a b : Bytes) (number : ℕ) → known a ≡ some number → known b ≡ some number → a ≡ b
    distinct_names a b number ea eb = ground (
      arith,
      str_eq_iff a (codes "read"),
      str_eq_iff a (codes "socket"),
      str_eq_iff a (codes "clone"),
      str_eq_iff a (codes "clone3"),
      str_eq_iff b (codes "read"),
      str_eq_iff b (codes "socket"),
      str_eq_iff b (codes "clone"),
      str_eq_iff b (codes "clone3"),
    )

abbrev no_sockets : List Bytes
no_sockets = codes "socket" ∷ codes "clone" ∷ []

abbrev narrow : Filter
narrow = record { default_action = fail eperm; rules = allow 0 [] ∷ fail_with 38 435 ∷ [] }

narrow_installed : install_seccomp library no_sockets ≡ some narrow
unfolding install_seccomp seccomp_rules allow_names unless_denied add_rules add_rule
    denied_by_profile
narrow_installed = refl

socket_denied : denied_by_profile (codes "socket") no_sockets ≡ true
unfolding denied_by_profile
socket_denied = refl

install_seccomp-denied_example :
    (narrow.default_action ≡ fail 1) × All (λ rule. number_of rule ≢ 41) narrow.rules
install_seccomp-denied_example =
    install_seccomp-denied library library-IsNaming no_sockets (codes "socket") 41 socket_denied
      refl narrow_installed

abbrev no_faults : Faults
no_faults = record {
  rename_second = false;
  rename_first = false;
  rename_current = false;
  reopen = false;
}

abbrev logs : Files
logs = record { current = some (codes "ab"); first = some (codes "x"); second = none; third = none }

abbrev reads : List Read
reads = chunk (codes "cd") no_faults (wrote 1 ∷ []) ∷ chunk (codes "e") no_faults [] ∷ []

log_pump-IsBounded_example : IsBounded (log_pump reads logs 2).0
log_pump-IsBounded_example =
    log_pump-IsBounded reads logs 2 (omega arith, (omega arith, tt)) refl
      (record {
        current = omega arith;
        first = omega arith;
        second = omega arith;
        third = omega arith;
      })

pumped : (log_pump reads logs 2).1 ≡ true
unfolding log_pump make_room write_chunk write_all
pumped = refl

log_pump-contents_example :
    IsSuffix (contents (log_pump reads logs 2).0) (contents logs ++ input reads)
log_pump-contents_example = log_pump-contents reads logs 2 pumped

abbrev profile : ProfileFile
profile = record {
  metadata =
      some
        (record { is_regular = true; user = 0; effective_user = 0; permissions = 420; size = 52 });
  version = some 1;
  deny = some (some (codes "socket") ∷ some (codes "read") ∷ []);
}

profile_loaded :
    seccomp_profile_load library (codes "/etc/deny.json") profile
    ≡ some (codes "socket" ∷ codes "read" ∷ [])
unfolding seccomp_profile_load load_array load_names seccomp_name_valid
profile_loaded = refl

seccomp_profile_load_sound_example :
    IsTrusted profile.metadata
    × (profile.version ≡ some 1)
    × (profile.deny ≡ some (map some (codes "socket" ∷ codes "read" ∷ [])))
    × (2 ≤ 128)
    × All (λ name. seccomp_name_valid library name ≡ true) (codes "socket" ∷ codes "read" ∷ [])
    × IsFresh [] (codes "socket" ∷ codes "read" ∷ [])
seccomp_profile_load_sound_example =
    seccomp_profile_load_sound library (codes "/etc/deny.json") profile profile_loaded

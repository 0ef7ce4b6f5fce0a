-- ===== src/Tests/Inputs.antt =====
-- The checks of text that the user gives.
use minicontainer.Base.{
  ℕ, ◌-◌, ◌*◌, ◌^◌, ◌≤◌, ◌<◌, ◌≡◌, ◌↔◌, refl, true, false, none, some, [], ◌∷◌, arith, codes,
  length, All,
}
use minicontainer.Base.Number.{decimal, u64_max, strtoull}
use minicontainer.Validate.Name.{valid_name, valid_name_iff, FirstAlnum, NameChar, HasDots}
use minicontainer.Validate.Path.{safe_archive_path, safe_link_target, link_stays_beneath}
use minicontainer.Validate.Path.Walk.{walk, components}
use minicontainer.Validate.Path.Links.{link_resolves, link_stays_beneath-link_resolves}
use minicontainer.Validate.Path.Safe.{
  IsBeneath, enter, safe_archive_path-IsBeneath, walk-safe_archive_path,
}
use minicontainer.Validate.Environment.{
  valid_environment, IsAssignment, valid_environment-IsAssignment,
}
use minicontainer.Validate.User.{parse_user}
use minicontainer.Resource.{
  parse_bytes, parse_positive_u64, parse_cpu_quota, scale_bytes, suffix_multiplier, scan_cpus,
  scan_step, finish,
}
use minicontainer.Resource.Sizes.{IsUnit, parse_bytes-exact, parse_positive_u64-blank_minus}
use minicontainer.Resource.Quota.{exact_quota, parse_cpu_quota-exact}
use minicontainer.Network.{parse_publish, scan_fields, protocol_number, inet_pton}

names :
    (valid_name (codes "alpine-3.24") ≡ true)
    × (valid_name (codes "Upper") ≡ false)
    × (valid_name (codes "../escape") ≡ false)
unfolding valid_name
names = (refl, refl, refl)

paths :
    (safe_archive_path (codes "bin/busybox") ≡ true)
    × (safe_archive_path (codes "/etc/passwd") ≡ false)
    × (safe_archive_path (codes "a/../b") ≡ false)
    × (safe_archive_path (codes "a//b") ≡ false)
    × (safe_link_target (codes "/bin/busybox") ≡ true)
    × (safe_link_target (codes "../../host") ≡ false)
unfolding safe_archive_path safe_link_target
paths = (refl, refl, refl, refl, refl, refl)

links :
    (link_stays_beneath (codes "usr/share/keys/x86/key") (codes "../key") ≡ true)
    × (link_stays_beneath (codes "usr/key") (codes "../../../../host") ≡ false)
unfolding link_stays_beneath
links = (refl, refl)

numbers :
    (parse_user (codes "1000:1001") ≡ some (1000, 1001))
    × (parse_user (codes "70000") ≡ none)
    × (parse_bytes (codes "128MiB") ≡ some 134217728)
    × (parse_bytes (codes "18446744073709551615GiB") ≡ none)
    × (parse_cpu_quota (codes "0.5") ≡ some 50000)
    × (parse_cpu_quota (codes "0") ≡ none)
    × (parse_positive_u64 (codes "128") 4194304 ≡ some 128)
unfolding parse_user parse_bytes parse_positive_u64 parse_cpu_quota strtoull scale_bytes
    suffix_multiplier scan_cpus scan_step finish
numbers = (refl, refl, refl, refl, refl, refl, refl)

link_stays_beneath-link_resolves_example :
    link_stays_beneath (codes "usr/key") (codes "../key")
    ≡ link_resolves (codes "usr/key") (codes "../key")
link_stays_beneath-link_resolves_example =
    link_stays_beneath-link_resolves (codes "usr/key") (codes "../key")

safe_archive_path-IsBeneath_example :
    (safe_archive_path (codes "bin/sh") ≡ true) ↔ IsBeneath (codes "bin/sh")
safe_archive_path-IsBeneath_example = safe_archive_path-IsBeneath (codes "bin/sh")

bin_sh : safe_archive_path (codes "bin/sh") ≡ true
unfolding safe_archive_path
bin_sh = refl

walk-safe_archive_path_example :
    walk (codes "bin/sh") (codes "root" ∷ [])
    ≡ some (enter (components (codes "bin/sh")) (codes "root" ∷ []))
walk-safe_archive_path_example = walk-safe_archive_path (codes "bin/sh") (codes "root" ∷ []) bin_sh

valid_name_iff_example : (valid_name (codes "web") ≡ true) ↔ (
    FirstAlnum (codes "web")
    × (length (codes "web") ≤ 64)
    × All NameChar (codes "web")
    × (¬ HasDots (codes "web")))
valid_name_iff_example = valid_name_iff (codes "web")

web : valid_name (codes "web") ≡ true
unfolding valid_name
web = refl

valid_environment-IsAssignment_example :
    (valid_environment (codes "DEMO=value") ≡ true) ↔ IsAssignment (codes "DEMO=value")
valid_environment-IsAssignment_example = valid_environment-IsAssignment (codes "DEMO=value")

user_group : parse_user (codes "7:65535") ≡ some (7, 65535)
unfolding parse_user strtoull
user_group = refl

mib : suffix_multiplier (codes "MiB") ≡ some (1024 * 1024)
unfolding suffix_multiplier
mib = refl

two_kib : parse_bytes (codes "2k") ≡ some 2048
unfolding parse_bytes strtoull scale_bytes suffix_multiplier
two_kib = refl

parse_bytes-exact_example :
    (m : ℕ) × IsUnit m × (2048 ≡ (strtoull (codes "2k")).value * m) × (0 < 2048) × (2048 ≤ u64_max)
parse_bytes-exact_example = parse_bytes-exact (codes "2k") two_kib

parse_positive_u64-blank_minus_example :
    parse_positive_u64 (b' ' ∷ b'-' ∷ decimal 1) u64_max ≡ some (2 ^ 64 - 1)
parse_positive_u64-blank_minus_example =
    parse_positive_u64-blank_minus 1 (omega arith) (omega arith)

half_cpu : parse_cpu_quota (codes "0.5") ≡ some 50000
unfolding parse_cpu_quota scan_cpus scan_step finish
half_cpu = refl

parse_cpu_quota-exact_example : 50000 ≡ exact_quota (codes "0.5")
parse_cpu_quota-exact_example = parse_cpu_quota-exact (codes "0.5") half_cpu

dns :
    parse_publish (codes "0.0.0.0:5353:53/udp")
    ≡ some (record { host_ipv4 = 0; host_port = 5353; container_port = 53; protocol = 17 })
unfolding parse_publish strtoull scan_fields protocol_number inet_pton
dns = refl

refused :
    (parse_publish (codes "127.0.0.1:0:80/tcp") ≡ none)
    × (parse_publish (codes "127.0.0.1:8080:80/sctp") ≡ none)
unfolding parse_publish strtoull scan_fields protocol_number inet_pton
refused = (refl, refl)

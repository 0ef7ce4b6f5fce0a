-- ===== src/Tests/Cli.antt =====
-- The options of `run`.
use minicontainer.Base.{
  ◌<◌, ◌≡◌, ◌≢◌, ◌⊎◌, refl, true, false, none, some, List, [], ◌∷◌, Bytes, codes, ℕ, length, zero,
  suc, ◌+◌, ◌*◌, ◌/◌, ◌%◌, ◌^◌, ◌≤◌, ap, arith, ◌==◌,
}
use minicontainer.Base.Number.{strtoull}
use minicontainer.Validate.Environment.{valid_environment}
use minicontainer.Validate.Name.{valid_name}
use minicontainer.Resource.{parse_bytes, scale_bytes, suffix_multiplier, parse_positive_u64}
use minicontainer.Cli.{
  Options, default_options, Machine, parse_run, option_loop, apply_flag, apply_key, key_of,
  accept_options,
}
use native.Mathlib.Omega.{div_any}
use native.Mathlib.Nat.{pow-le-pow_right}
use minicontainer.Launch.{RunConfig, has_bit, capability_slots, shim_arguments, allocated_slots}
use minicontainer.Launch.Room.{shim_arguments-fit}
use minicontainer.Security.{capability_name}
use minicontainer.Shim.{
  ShimOptions, cleared, shim_key_of, apply_shim_key, shim_loop, is_absolute, parse_shim,
}
use minicontainer.Shim.Accepted.{IsBounded, parse_shim-IsBounded}
use minicontainer.Network.{scan_run, scan_literal, run_of}
use minicontainer.Ids.{Draw, drawn, fill, generate_id, line_start, lines_start, read_start}
use minicontainer.Cli.Accepted.{IsSound, parse_run-IsSound}

abbrev bare : Machine
bare = record {
  host = record {
    realpath = λ path. none;
    is_directory = λ path. false;
    allowed_bind_sources = none;
  };
  seccomp = record {
    resolve_name = λ name. none;
    sys = λ name. 0;
    accepts = λ rule. true;
    initialises = λ action. true;
    loads = λ filter. true;
  };
  profile_at = λ path. record { metadata = none; version = none; deny = none };
}

abbrev arguments : List Bytes
arguments =
    codes "--image"
    ∷ codes "base"
    ∷ codes "--detach"
    ∷ codes "--memory"
    ∷ codes "64m"
    ∷ codes "--env"
    ∷ codes "A=1"
    ∷ codes "--"
    ∷ codes "sh"
    ∷ []

abbrev accepted : Options
accepted = record default_options {
  image = some (codes "base");
  detach = true;
  memory_max = 67108864;
  environment = codes "A=1" ∷ [];
}

parsed : parse_run bare arguments ≡ some (accepted, codes "sh" ∷ [])
unfolding parse_run option_loop apply_flag apply_key key_of accept_options valid_environment
    parse_bytes strtoull scale_bytes suffix_multiplier
parsed = refl

refused :
    parse_run bare (
      codes "--image" ∷ codes "base" ∷ codes "--name" ∷ codes "a..b" ∷ codes "--" ∷ codes "sh" ∷ [])
    ≡ none
unfolding parse_run option_loop apply_flag apply_key key_of accept_options valid_name
refused = refl

parse_run-IsSound_example :
    IsSound bare accepted
    × (0 < 1)
    × (accepted.image ≢ none)
    × ((true ≡ true) ⊎ (accepted.publishes ≡ []))
parse_run-IsSound_example = parse_run-IsSound bare arguments parsed

abbrev launched : RunConfig
launched = record {
  id = codes "0123456789abcdef0123456789abcdef";
  rootfs = codes "/var/lib/image";
  hostname = codes "host";
  ipv4_host = 0x0a2c0002;
  options = record accepted { capability_mask = 1024 };
  command = codes "sh" ∷ [];
}

small_quotient : (b q r : ℕ) → b * q + r ≡ 1024 → 2048 ≤ b → q ≡ 0
small_quotient b zero r e h = refl
small_quotient b (suc q) r e h = absurd (omega arith)

high_bits : (i : ℕ) → 41 ≤ i → has_bit 1024 i ≡ false
high_bits i h =
    let large : 2 ^ 11 ≤ 2 ^ i = pow-le-pow_right (omega arith) {i = 11} {j = i} (omega arith) in
    let none_left =
      small_quotient (2 ^ i) (1024 / 2 ^ i) (1024 % 2 ^ i) (div_any 1024 (2 ^ i)) large in
    ap (λ q. q % 2 == 1) none_left

capability_argument :
    capability_slots 1024 64 0 ≡ some (codes "--cap-add") ∷ some (codes "NET_BIND_SERVICE") ∷ []
unfolding capability_slots capability_name
capability_argument = refl

shim_arguments-fit_example :
    length (shim_arguments (codes "/bin/shim") 5 launched) < allocated_slots launched
shim_arguments-fit_example = shim_arguments-fit (codes "/bin/shim") 5 launched high_bits

abbrev shim_line : List Bytes
shim_line =
    codes "--id"
    ∷ codes "f00"
    ∷ codes "--rootfs"
    ∷ codes "/image"
    ∷ codes "--hostname"
    ∷ codes "host"
    ∷ codes "--workdir"
    ∷ codes "/"
    ∷ codes "--memory"
    ∷ codes "65536"
    ∷ codes "--cpu-quota"
    ∷ codes "50000"
    ∷ codes "--pids-limit"
    ∷ codes "64"
    ∷ codes "--"
    ∷ codes "sh"
    ∷ []

abbrev shim_options : ShimOptions
shim_options = record cleared {
  id = some (codes "f00");
  rootfs = some (codes "/image");
  hostname = some (codes "host");
  workdir = some (codes "/");
  memory_max = 65536;
  cpu_quota = 50000;
  pids_max = 64;
}

shim_parsed : parse_shim bare shim_line ≡ some (shim_options, codes "sh" ∷ [])
unfolding parse_shim shim_loop shim_key_of apply_shim_key parse_positive_u64 strtoull
shim_parsed = refl

parse_shim-IsBounded_example :
    IsBounded bare shim_options
    × (is_absolute bare shim_options.workdir ≡ true)
    × (0 < 65536)
    × (0 < 50000)
    × (0 < 64)
parse_shim-IsBounded_example = parse_shim-IsBounded bare shim_line shim_parsed

abbrev drawn_twice : List Draw
drawn_twice = drawn (0 ∷ 255 ∷ 16 ∷ 1 ∷ []) ∷ drawn (codes "abcdefghijkl") ∷ []

generated : generate_id drawn_twice ≡ some (codes "00ff10016162636465666768696a6b6c")
unfolding generate_id fill
generated = refl

subordinate :
    read_start none (some (codes "user:1:2" ∷ codes "minicontainer:100000:65536" ∷ []))
    ≡ some 100000
unfolding read_start lines_start line_start strtoull scan_run scan_literal run_of
subordinate = refl

-- ===== src/Mount.antt =====
-- util/mount.c: mount targets, bind mounts and tmpfs mounts. strdup is taken to succeed.
pub mod Target
pub mod Specs
use minicontainer.Base.{
  ℕ, zero, suc, ◌+◌, ◌-◌, ◌*◌, ◌/◌, ◌%◌, ◌^◌, ◌≤◌, ◌<◌, ◌≡◌, ◌≢◌, ◌↔◌, ◌⊎◌, inl, inr, refl, sym, ap,
  ◌∙◌, Bool, true, false, not, ◌&&◌, ◌||◌, Option, none, some, List, [], ◌∷◌, ◌++◌, map, arith,
  Bytes, codes, length, All, ◌==◌, leb, ltb, if◌then◌else◌, ◌>>=◌, ◌>>◌, guard, is_some, Bool-cases,
  Option-cases,
}
use minicontainer.Base.{str_eq, starts_with, break_at, drop, any}
use minicontainer.Resource.{parse_bytes}

abbrev pub slash : ℕ
slash = b'/'

-- PATH_MAX
abbrev pub path_max : ℕ
path_max = 4096

-- The byte at the front is the end of the string or a separator.
abbrev pub ends_component : Bytes → Bool
ends_component [] = true
ends_component (c ∷ s) = c == slash

-- The loop over the occurrences of "..": `bounded` says that `component[-1]` is a separator or that
-- `component` is the start of the target. An occurrence that is no component is passed over whole.
unfoldable pub dot_dot_loop : Bool → Bytes → Bool
dot_dot_loop bounded [] = false
dot_dot_loop bounded (c ∷ []) = false
dot_dot_loop bounded (c ∷ d ∷ s) =
    let later = dot_dot_loop false s in
    let onward = dot_dot_loop (c == slash) (d ∷ s) in
    if starts_with (codes "..") (c ∷ d ∷ s)
    then (if bounded && ends_component s then true else later)
    else onward

-- strncmp(path, parent, strlen(parent)) == 0 and a component ends there.
abbrev pub under_path : Bytes → Bytes → Bool
under_path path parent = starts_with parent path && ends_component (drop (length parent) path)

abbrev pub forbidden : List Bytes
forbidden =
    codes "/proc"
    ∷ codes "/sys"
    ∷ codes "/dev"
    ∷ codes "/run/minicontainer"
    ∷ codes "/var/lib/minicontainer"
    ∷ []

abbrev is_absolute : Bytes → Bool
is_absolute [] = false
is_absolute (c ∷ s) = c == slash

abbrev is_root : Bytes → Bool
is_root [] = false
is_root (c ∷ []) = c == slash
is_root (c ∷ d ∷ s) = false

unfoldable pub valid_target : Bytes → Bool
valid_target target =
    if not (is_absolute target) || is_root target || leb path_max (length target)
    then false
    else if dot_dot_loop true target
    then false
    else not (any (under_path target) forbidden)

pub data MountType : Type 0 where
  bind tmpfs : MountType

-- struct mc_mount
pub record Mount : Type 0 where
  pub type : MountType
  pub source : Option Bytes
  pub target : Bytes
  pub size : ℕ
  pub readonly : Bool

-- What the parser of bind mounts asks of the system: realpath, whether stat finds a directory, and
-- the texts that json_object_get_string returns for the members of "allowed_bind_sources" in the
-- configuration file (`none` where there is no such array): a string, or the JSON text of another
-- value. A null member, for which it returns NULL, is left out, as the loop passes it over.
pub record Host : Type 0 where
  pub realpath : Bytes → Option Bytes
  pub is_directory : Bytes → Bool
  pub allowed_bind_sources : Option (List Bytes)

module _ (host : Host) where
  abbrev entry_covers : Bytes → Bytes → Bool
  entry_covers source entry = elim (host.realpath entry) [
    | none ↦ false
    | some resolved ↦ under_path source resolved
  ]

  unfoldable pub bind_allowed : Bytes → Bool
  bind_allowed source = elim host.allowed_bind_sources [
    | none ↦ false
    | some entries ↦ any (entry_covers source) entries
  ]

  abbrev valid_mode : Option Bytes → Bool
  valid_mode none = true
  valid_mode (some mode) = str_eq mode (codes "ro") || str_eq mode (codes "rw")

  abbrev is_readonly : Option Bytes → Bool
  is_readonly none = false
  is_readonly (some mode) = str_eq mode (codes "ro")

  abbrev resolve_source : Bytes → Option Bytes
  resolve_source copy = host.realpath copy >>= λ resolved.
      if host.is_directory resolved && bind_allowed resolved then some resolved else none

  abbrev bind_parts : Bytes → Bytes × Option Bytes → Option Mount
  bind_parts copy (target, mode) =
      if not (is_absolute copy) || not (valid_target target) || not (valid_mode mode)
      then none
      else (resolve_source copy >>= λ resolved. some (record {
        type = bind;
        source = some resolved;
        target = target;
        size = 0;
        readonly = is_readonly mode;
      }))

  -- SOURCE:TARGET[:ro|rw]
  unfoldable pub parse_bind_mount : Bytes → Option Mount
  parse_bind_mount value =
      let (copy, separator) = break_at b':' value in
      separator >>= λ rest. bind_parts copy (break_at b':' rest)

abbrev tmpfs_default : ℕ
tmpfs_default = 64 * 1024 * 1024

abbrev pub tmpfs_max : ℕ
tmpfs_max = 1073741824

abbrev tmpfs_size : Option Bytes → Option ℕ
tmpfs_size none = some tmpfs_default
tmpfs_size (some text) = parse_bytes text >>= λ size. if ltb tmpfs_max size then none else some size

abbrev tmpfs_mount : Bytes → ℕ → Option Mount
tmpfs_mount target size =
    if valid_target target
    then some
        (record { type = tmpfs; source = none; target = target; size = size; readonly = false })
    else none

-- TARGET[:SIZE]. The search for the colon begins at the second byte. On the empty text it would
-- begin behind the terminator, which the model takes as a text that holds no colon.
unfoldable pub parse_tmpfs_mount : Bytes → Option Mount
parse_tmpfs_mount [] = tmpfs_mount [] tmpfs_default
parse_tmpfs_mount (c ∷ value) =
    let (target, separator) = break_at b':' value in
    tmpfs_size separator >>= λ size. tmpfs_mount (c ∷ target) size

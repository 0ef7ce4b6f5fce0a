-- ===== src/Fs/Write.antt =====
-- util/fs.c: mc_write_atomic, on a map from paths to contents. What the calls return is the parameter
-- `Calls`.
use minicontainer.Base.{
  ℕ, ◌+◌, ◌-◌, Bool, not, ◌&&◌, ◌||◌, Option, none, some, List, [], ◌∷◌, ◌++◌, Bytes, codes, length,
  leb, if◌then◌else◌, is_some, take, str_eq,
}
use minicontainer.State.Registry.{exit_runtime, path_max}

abbrev pub Files : Type 0
Files = Bytes → Option Bytes

-- The calls in their order: open of a file that is not there yet, the results of write, `none` for an
-- error, which ends the list, fsync, close and rename, and those on the parent directory. `pid` is the
-- printed process number.
pub record Calls : Type 0 where
  pub pid : Bytes
  pub creates : Bool
  pub counts : List (Option ℕ)
  pub syncs : Bool
  pub closes : Bool
  pub renames : Bool
  pub opens_directory : Bool
  pub syncs_directory : Bool
  pub closes_directory : Bool

abbrev pub set_file : Files → Bytes → Option Bytes → Files
set_file files path content = λ other. if str_eq other path then content else files other

-- "%s.tmp.%ld", as snprintf cuts it: the test of its length never holds.
abbrev pub temporary_name : Bytes → Bytes → Bytes
temporary_name path pid = take (path_max - 1) (path ++ (codes ".tmp." ++ pid))

-- The loop of write: the bytes that are written, `none` where a write fails.
unfoldable pub write_data : List (Option ℕ) → ℕ → ℕ → Option ℕ
write_data [] size written = if leb size written then some written else none
write_data (none ∷ counts) size written = if leb size written then some written else none
write_data (some count ∷ counts) size written =
    let next = write_data counts size (written + count) in
    if leb size written then some written else next

-- From the rename on. A path is not too long for the second buffer if it is not for the first.
abbrev pub sync_parent : Calls → Files → Bytes → Files × Option ℕ
sync_parent calls files path =
    if leb path_max (length path)
    then (files, some 125)
    else if calls.opens_directory && (calls.syncs_directory && calls.closes_directory)
    then (files, none)
    else (files, some exit_runtime)

abbrev pub replace : Calls → Files → Bytes → Bytes → Bytes → Files × Option ℕ
replace calls files temporary path content =
    if not calls.syncs || not (calls.closes && calls.renames)
    then (set_file files temporary none, some exit_runtime)
    else sync_parent calls (set_file (set_file files temporary none) path (some content)) path

unfoldable pub write_atomic : Calls → Files → Bytes → Bytes → Files × Option ℕ
write_atomic calls files path bytes =
    let temporary = temporary_name path calls.pid in
    if not calls.creates || is_some (files temporary)
    then (files, some exit_runtime)
    else (elim (write_data calls.counts (length bytes) 0) [
      | none ↦ (set_file files temporary none, some exit_runtime)
      | some written ↦ replace calls files temporary path (take written bytes)
    ])

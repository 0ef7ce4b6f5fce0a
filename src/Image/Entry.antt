-- ===== src/Image/Entry.antt =====
-- image/import.c: the test of an entry of an archive, and the extraction. libarchive gives the
-- entries and writes them; what it returns is an argument.
use minicontainer.Base.{
  ℕ, ◌+◌, ◌/◌, ◌%◌, Bool, true, false, not, ◌&&◌, ◌||◌, Option, none, some, List, [], ◌∷◌, Bytes,
  ◌==◌, ltb, if◌then◌else◌,
}
use minicontainer.Validate.Path.{safe_archive_path, link_stays_beneath}
use minicontainer.State.Registry.{exit_runtime}
use minicontainer.State.Save.{exit_internal}
use minicontainer.Cli.Commands.{exit_usage}

-- la_int64_t; `negsuc n` is the number -1 - n.
pub data ℤ : Type 0 where
  pos : ℕ → ℤ
  negsuc : ℕ → ℤ

-- AE_IF*; `other` is any other number.
pub data FileType : Type 0 where
  regular directory symbolic_link block_device character_device fifo socket other : FileType

-- What archive_entry_* return; `none` is NULL.
pub record Entry : Type 0 where
  pub pathname : Option Bytes
  pub symlink : Option Bytes
  pub hardlink : Option Bytes
  pub type : FileType
  pub permissions : ℕ
  pub uid : ℤ
  pub gid : ℤ

-- The path behind each "./" in front of it.
abbrev pub strip_dots : Bytes → Bytes
strip_dots [] = []
strip_dots (c ∷ []) = c ∷ []
strip_dots (c ∷ d ∷ s) =
    let rest = strip_dots s in if c == b'.' && d == b'/' then rest else c ∷ d ∷ s

abbrev pub is_special : FileType → Bool
is_special block_device = true
is_special character_device = true
is_special fifo = true
is_special socket = true
is_special normal = false

-- S_ISUID and S_ISGID, 04000 and 02000.
abbrev pub sets_id : ℕ → Bool
sets_id permissions = not (permissions / 1024 % 4 == 0)

abbrev pub bad_owner : ℤ → Bool
bad_owner (pos n) = ltb 65535 n
bad_owner (negsuc n) = true

abbrev pub add_start : ℕ → ℤ → ℤ
add_start start (pos n) = pos (start + n)
add_start start (negsuc n) = negsuc n

abbrev pub link_is_unsafe : Bytes → Entry → Bool
link_is_unsafe path entry =
    (elim entry.symlink [ none ↦ false | some target ↦ not (link_stays_beneath path target) ])
    || (elim entry.hardlink [ none ↦ false | some target ↦ not (safe_archive_path target) ])

-- What validate_entry returns: 1, -1, or 0 with the entry as it has been changed.
pub data Verdict : Type 0 where
  skip refuse : Verdict
  accept : Entry → Verdict

abbrev pub shifted : ℕ → ℕ → Bytes → Entry → Entry
shifted uid_start gid_start path entry = record entry {
  pathname = some path;
  uid = add_start uid_start entry.uid;
  gid = add_start gid_start entry.gid;
}

abbrev pub validate_path : ℕ → ℕ → Bytes → Entry → Verdict
validate_path uid_start gid_start [] entry = skip
validate_path uid_start gid_start (c ∷ s) entry =
    if not (safe_archive_path (c ∷ s))
    then refuse
    else if link_is_unsafe (c ∷ s) entry
    then refuse
    else if is_special entry.type
    then refuse
    else if sets_id entry.permissions
    then refuse
    else if bad_owner entry.uid || bad_owner entry.gid
    then refuse
    else accept (shifted uid_start gid_start (c ∷ s) entry)

unfoldable pub validate_entry : ℕ → ℕ → Entry → Verdict
validate_entry uid_start gid_start entry = elim entry.pathname [
  | none ↦ skip
  | some path ↦ validate_path uid_start gid_start (strip_dots path) entry
]

-- What libarchive reads: each entry with whether archive_read_extract2 returns ARCHIVE_OK for it, and
-- at the end whether ARCHIVE_EOF is returned.
pub record Archive : Type 0 where
  pub entries : List (Entry × Bool)
  pub complete : Bool

-- The loop: the entries that are given to archive_read_extract2, the last first, and the code where
-- it fails.
unfoldable pub extract_loop :
    ℕ → ℕ → Bool → List (Entry × Bool) → List Entry → List Entry × Option ℕ
extract_loop uid_start gid_start complete [] written =
    (written, if complete then none else some exit_runtime)
extract_loop uid_start gid_start complete ((entry, extracts) ∷ entries) written =
    let skipped = extract_loop uid_start gid_start complete entries written in
    elim (validate_entry uid_start gid_start entry) [
      | skip ↦ skipped
      | refuse ↦ (written, some exit_usage)
      | accept changed ↦
          let next = extract_loop uid_start gid_start complete entries (changed ∷ written) in
          if extracts then next else (changed ∷ written, some exit_runtime)
    ]

-- Whether the calls around the loop work: the initialisation, the open of the archive and chdir, and
-- the fchdir back.
pub record Extraction : Type 0 where
  pub initialises : Bool
  pub opens : Bool
  pub returns : Bool
  pub archive : Archive

abbrev pub and_return : Bool → Option ℕ → Option ℕ
and_return returns (some code) = some code
and_return returns none = if returns then none else some exit_runtime

-- extract_archive: the entries that it has written, and the code where it fails.
unfoldable pub extract_archive : ℕ → ℕ → Extraction → List Entry × Option ℕ
extract_archive uid_start gid_start e =
    if not e.initialises
    then ([], some exit_internal)
    else if not e.opens
    then ([], some exit_runtime)
    else let (written, status) =
        extract_loop uid_start gid_start e.archive.complete e.archive.entries [] in
      (written, and_return e.returns status)

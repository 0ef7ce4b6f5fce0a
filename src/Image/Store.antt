-- ===== src/Image/Store.antt =====
-- image/import.c: the directory of the images, mc_image_import and mc_image_resolve. A call that
-- fails without an error of its own ends with the code 0.
use minicontainer.Base.{
  ℕ, ◌+◌, Bool, false, not, ◌||◌, Option, none, some, List, [], ◌∷◌, ◌++◌, Bytes, codes, length,
  ◌==◌, ltb, if◌then◌else◌, ◌>>=◌, is_some, take, drop, starts_with, str_eq,
}
use minicontainer.Validate.Name.{valid_name}
use minicontainer.Ids.{hex}
use minicontainer.State.Registry.{
  Result, ok, err, exit_runtime, exit_conflict, exit_not_found, path_max,
}
use minicontainer.State.Reconcile.{Outcome, written, kept, unsynced}
use minicontainer.Cli.Commands.{exit_usage}
use minicontainer.Image.Entry.{Entry, Extraction, extract_archive}

-- A directory below images/sha256: what is in its rootfs, and its file .complete.
pub record Image : Type 0 where
  pub entries : List Entry
  pub marker : Option Bytes

-- The directories below images/sha256, and the files of images/names.
pub record Images : Type 0 where
  pub directory : Bytes → Option Image
  pub record_of : Bytes → Option Bytes

-- What the calls of one import return: the test of the archive, the digest (OpenSSL's bytes), the
-- ranges of ids, and then the calls in their order. `pid` is the printed process number.
pub record Import : Type 0 where
  pub is_regular : Bool
  pub sha256 : Result Bytes
  pub ids : Result (ℕ × ℕ)
  pub mkdir_error : Option ℕ
  pub pid : Bytes
  pub staging_error : Option ℕ
  pub chowns : Bool
  pub extraction : Extraction
  pub marker_outcome : Outcome
  pub publishes : Bool
  pub name_outcome : Outcome

abbrev pub path_join : ℕ → Bytes → Bytes → Option Bytes
path_join size left right =
    if ltb size (length left + 1 + length right + 1) then none else some (left ++ (b'/' ∷ right))

-- "%02x" for each byte of the digest.
unfoldable pub archive_digest : Result Bytes → Result Bytes
archive_digest (ok bytes) = if length bytes == 32 then ok (hex bytes) else err exit_runtime
archive_digest (err code) = err code

abbrev pub put_directory : Images → Bytes → Option Image → Images
put_directory images key image = record images {
  directory = λ other. if str_eq other key then image else images.directory other;
}

abbrev pub put_record : Images → Bytes → Bytes → Images
put_record images name content = record images {
  record_of = λ other. if str_eq other name then some content else images.record_of other;
}

-- access of the file .complete
abbrev pub is_complete : Images → Bytes → Bool
is_complete images key = elim (images.directory key) [
  | none ↦ false
  | some image ↦ is_some image.marker
]

-- "%s.import.%ld" in an array of 96 characters.
abbrev pub staging_name : Bytes → Bytes → Bytes
staging_name digest pid = take 95 (digest ++ (codes ".import." ++ pid))

-- A directory that is left from before is kept with what is in it.
abbrev pub staged : Images → Bytes → Image
staged images key = elim (images.directory key) [
  | none ↦ record { entries = []; marker = none }
  | some image ↦ image
]

abbrev pub with_entries : Image → List Entry → Image
with_entries image more = record image { entries = more ++ image.entries }

-- The rename of the staging directory.
abbrev pub publish : Images → Bytes → Bytes → Image → Images
publish images key digest image = put_directory (put_directory images key none) digest (some image)

-- The part from the write of the marker on, of an image that is extracted.
abbrev pub seal_image : Images → Bytes → Bytes → Image → Import → Images × Option ℕ
seal_image images key digest image calls =
    let marked = record image { marker = some digest } in
    elim calls.marker_outcome [
      | kept ↦ (put_directory images key (some image), some exit_runtime)
      | unsynced ↦ (put_directory images key (some marked), some exit_runtime)
      | written ↦
          if calls.publishes
          then (publish images key digest marked, none)
          else (put_directory images key (some marked), some exit_runtime)
    ]

-- The staging directory, once it is made. A chown that fails sets no error.
unfoldable pub fill_staging : Images → Bytes → Bytes → ℕ → ℕ → Import → Images × Option ℕ
fill_staging images key digest uid_start gid_start calls =
    let image = staged images key in
    if not calls.chowns
    then (put_directory images key (some image), some 0)
    else let (more, status) = extract_archive uid_start gid_start calls.extraction in
      elim status [
        | some code ↦ (put_directory images key (some (with_entries image more)), some code)
        | none ↦ seal_image images key digest (with_entries image more) calls
      ]

-- The paths of the staging directory fit: digest_base, its name, and the longer leaf ".complete".
abbrev pub staging_fits : Bytes → Bytes → Bool
staging_fits digest_base key = is_some (
    path_join path_max digest_base key >>= λ base.
    path_join path_max base (codes "rootfs") >>= λ rootfs.
    path_join path_max base (codes ".complete"))

unfoldable pub prepare_image : Images → Bytes → Bytes → ℕ → ℕ → Import → Images × Option ℕ
prepare_image images digest_base digest uid_start gid_start calls =
    let key = staging_name digest calls.pid in
    if is_complete images digest
    then (images, none)
    else if is_some (images.directory digest)
    then (images, some exit_conflict)
    else if not (staging_fits digest_base key)
    then (images, some exit_usage)
    else (elim calls.staging_error [
      | some code ↦ (images, some code)
      | none ↦ fill_staging images key digest uid_start gid_start calls
    ])

-- "sha256:%s\n" in an array of 80 characters.
abbrev pub digest_record : Bytes → Bytes
digest_record digest = take 79 (codes "sha256:" ++ (digest ++ codes "\n"))

abbrev pub write_record : Images → Bytes → Bytes → Import → Images × Option ℕ
write_record images name digest calls = elim calls.name_outcome [
  | written ↦ (put_record images name (digest_record digest), none)
  | kept ↦ (images, some exit_runtime)
  | unsynced ↦ (put_record images name (digest_record digest), some exit_runtime)
]

-- digest_base, the rootfs of the image, and names_dir, where all five paths fit.
abbrev pub import_paths : Bytes → Bytes → Option (Bytes × Bytes × Bytes)
import_paths state_dir digest =
    path_join path_max state_dir (codes "images/sha256") >>= λ digest_base.
    path_join path_max digest_base digest >>= λ image_base.
    path_join path_max image_base (codes "rootfs") >>= λ rootfs.
    path_join path_max image_base (codes ".complete") >>= λ marker.
    path_join path_max state_dir (codes "images/names") >>= λ names.
    some (digest_base, rootfs, names)

abbrev pub record_image : Images → Bytes → Bytes → Bytes → Bytes → Import → Images × Result Bytes
record_image images names_dir name digest rootfs calls =
    elim (path_join path_max names_dir name) as (λ _. Images × Result Bytes) [
      | none ↦ (images, err exit_usage)
      | some path ↦
          let (after, status) = write_record images name digest calls in
          elim status as (λ _. Images × Result Bytes) [
            | some code ↦ (after, err code)
            | none ↦ (after, ok rootfs)
          ]
    ]

-- The part that changes the directory: the root file system of the image.
unfoldable pub store_image : Images → Bytes → Bytes → Bytes → ℕ → ℕ → Import → Images × Result Bytes
store_image images state_dir name digest uid_start gid_start calls =
    elim (import_paths state_dir digest) as (λ _. Images × Result Bytes) [
      | none ↦ (images, err exit_usage)
      | some (digest_base, rootfs, names_dir) ↦
          elim calls.mkdir_error as (λ _. Images × Result Bytes) [
            | some code ↦ (images, err code)
            | none ↦
                let (after, status) =
                  prepare_image images digest_base digest uid_start gid_start calls in
                elim status as (λ _. Images × Result Bytes) [
                  | some code ↦ (after, err code)
                  | none ↦ record_image after names_dir name digest rootfs calls
                ]
          ]
    ]

unfoldable pub import_image : Images → Bytes → Bytes → Import → Images × Result Bytes
import_image images state_dir name calls =
    if not (valid_name name)
    then (images, err exit_usage)
    else if not calls.is_regular
    then (images, err exit_not_found)
    else (elim (archive_digest calls.sha256) as (λ _. Images × Result Bytes) [
      | err code ↦ (images, err code)
      | ok digest ↦ elim calls.ids as (λ _. Images × Result Bytes) [
        | err code ↦ (images, err code)
        | ok (uid_start, gid_start) ↦
            store_image images state_dir name digest uid_start gid_start calls
      ]
    ])

-- strcspn(record, "\r\n") of the characters that are read: a NUL ends them too.
abbrev pub first_line : Bytes → Bytes
first_line [] = []
first_line (c ∷ s) =
    let rest = first_line s in if c == 13 || c == 10 || c == 0 then [] else c ∷ rest

abbrev pub resolve_digest : Images → Bytes → ℕ → Bytes → Result Bytes
resolve_digest images state_dir rootfs_size digest =
    elim (path_join path_max state_dir (codes "images/sha256") >>= λ digest_dir.
    path_join path_max digest_dir digest >>= λ image_dir.
    path_join rootfs_size image_dir (codes "rootfs") >>= λ rootfs.
    path_join path_max image_dir (codes ".complete") >>= λ marker. some rootfs)
      as (λ _. Result Bytes) [
        | none ↦ err exit_usage
        | some rootfs ↦ if is_complete images digest then ok rootfs else err exit_runtime
      ]

abbrev pub resolve_record : Images → Bytes → ℕ → Bytes → Result Bytes
resolve_record images state_dir rootfs_size text =
    if not (length text == 71) || not (starts_with (codes "sha256:") text)
    then err exit_runtime
    else resolve_digest images state_dir rootfs_size (drop 7 text)

-- mc_image_resolve; `reads` tells whether the read of the record works.
unfoldable pub resolve_image : Images → Bytes → Bool → Bytes → ℕ → Result Bytes
resolve_image images state_dir reads name rootfs_size =
    if not (valid_name name) || rootfs_size == 0
    then err exit_usage
    else (elim (path_join path_max state_dir (codes "images/names") >>= λ names.
          path_join path_max names name)
        as (λ _. Result Bytes) [
          | none ↦ err exit_usage
          | some path ↦ elim (images.record_of name) as (λ _. Result Bytes) [
            | none ↦ err exit_not_found
            | some content ↦
                if not reads
                then err exit_runtime
                else resolve_record images state_dir rootfs_size (first_line (take 79 content))
          ]
        ])

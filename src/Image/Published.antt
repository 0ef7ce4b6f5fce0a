-- ===== src/Image/Published.antt =====
-- image/import.c: every name leads to an image that is complete, and all that is in the directory of
-- the images has been checked.
use minicontainer.Base.{
  ℕ, ◌≡◌, refl, sym, Bool, true, false, not, Option, none, some, arith, Bytes, length, ◌==◌,
  if◌then◌else◌, str_eq, subst, some-injective, ==_iff,
}
use minicontainer.Validate.Name.{valid_name}
use minicontainer.Ids.{hex, length-hex}
use minicontainer.State.Registry.{Result, ok, err}
use minicontainer.Image.Entry.{Extraction}
use minicontainer.State.Reconcile.{Outcome, written, kept, unsynced}
use minicontainer.Image.Store.{
  Images, Import, path_join, archive_digest, put_record, is_complete, prepare_image, digest_record,
  write_record, import_paths, record_image, store_image, import_image,
}
use minicontainer.Image.Consistent.{IsConsistent, Good, prepare_image-Good}

put_record-IsConsistent :
    (past : Extraction → Type 0) (images : Images) (name digest : Bytes)
    → length digest ≡ 64
    → is_complete images digest ≡ true
    → IsConsistent past images
    → IsConsistent past (put_record images name (digest_record digest))
put_record-IsConsistent past images name digest size full old = record {
  checked = old.checked;
  recorded = λ other content e. go (str_eq other name) content e (old.recorded other content);
}
  where
    Recorded : Bytes → Type 0
    Recorded content =
        (digest : Bytes) × (length digest ≡ 64)
        × (content ≡ digest_record digest)
        × (is_complete images digest ≡ true)

    go :
        (b : Bool) (content : Bytes) {before : Option Bytes}
        → (if b then some (digest_record digest) else before) ≡ some content
        → (before ≡ some content → Recorded content)
        → Recorded content
    go true content e h =
        (digest, size, sym (some-injective (digest_record digest) content e), full)
    go false content e h = h e

write_record-IsConsistent :
    (past : Extraction → Type 0) (images : Images) (name digest : Bytes) (calls : Import)
    → length digest ≡ 64
    → is_complete images digest ≡ true
    → IsConsistent past images
    → IsConsistent past (write_record images name digest calls).0
write_record-IsConsistent past images name digest calls size full old = go calls.name_outcome
  where
    changed : IsConsistent past (put_record images name (digest_record digest))
    changed = put_record-IsConsistent past images name digest size full old

    go :
        (o : Outcome)
        → IsConsistent past
            (elim o as (λ _. Images × Option ℕ) [
              | written ↦ (put_record images name (digest_record digest), none)
              | kept ↦ (images, some 7)
              | unsynced ↦ (put_record images name (digest_record digest), some 7)
            ]).0
    go written = changed
    go kept = old
    go unsynced = changed

pub length-archive_digest :
    (r : Result Bytes) (digest : Bytes) → archive_digest r ≡ ok digest → length digest ≡ 64
unfolding archive_digest
length-archive_digest (err code) digest e = cc
length-archive_digest (ok bytes) digest e = go (length bytes == 32) refl e
  where
    ok-injective : (a : Bytes) → ◌≡◌ {A = Result Bytes} (ok a) (ok digest) → a ≡ digest
    ok-injective a q = cc

    go :
        (b : Bool)
        → (length bytes == 32) ≡ b
        → (if b then ok (hex bytes) else err 7) ≡ ok digest
        → length digest ≡ 64
    go true size q =
        subst (λ d. length d ≡ 64) (ok-injective (hex bytes) q)
          (omega (arith, length-hex bytes, (==_iff (length bytes) 32).0 size))
    go false size q = cc

module _ (past : Extraction → Type 0) (images : Images) (old : IsConsistent past images)
    (state_dir name : Bytes) (calls : Import) (now : past calls.extraction) where
  record_image-IsConsistent :
      (names_dir digest rootfs : Bytes) (m : Images × Option ℕ)
      → length digest ≡ 64
      → Good past digest m
      → IsConsistent past
          (elim m.1 as (λ _. Images × Result Bytes) [
            | some code ↦ (m.0, err code)
            | none ↦ record_image m.0 names_dir name digest rootfs calls
          ]).0
  unfolding Good
  record_image-IsConsistent names_dir digest rootfs (after, some code) size good = good.0
  record_image-IsConsistent names_dir digest rootfs (after, none) size good =
      go (path_join 4096 names_dir name)
    where
      ended :
          (r : Images × Option ℕ)
          → IsConsistent past r.0
          → IsConsistent past
              (elim r.1 as (λ _. Images × Result Bytes) [
                | some code ↦ (r.0, err code)
                | none ↦ (r.0, ok rootfs)
              ]).0
      ended (w, none) h = h
      ended (w, some code) h = h

      go :
          (o : Option Bytes)
          → IsConsistent past
              (elim o as (λ _. Images × Result Bytes) [
                | none ↦ (after, err 2)
                | some path ↦
                    let (last, status) = write_record after name digest calls in
                    elim status as (λ _. Images × Result Bytes) [
                      | some code ↦ (last, err code)
                      | none ↦ (last, ok rootfs)
                    ]
              ]).0
      go none = good.0
      go (some path) =
          ended (write_record after name digest calls)
            (write_record-IsConsistent past after name digest calls size (good.1 refl) good.0)

  store_image-IsConsistent :
      (digest : Bytes) (uid_start gid_start : ℕ)
      → length digest ≡ 64
      → IsConsistent past (store_image images state_dir name digest uid_start gid_start calls).0
  unfolding store_image
  store_image-IsConsistent digest uid_start gid_start size =
      paths (import_paths state_dir digest) calls.mkdir_error
    where
      made :
          (o : Option ℕ) (digest_base rootfs names_dir : Bytes)
          → IsConsistent past
              (elim o as (λ _. Images × Result Bytes) [
                | some code ↦ (images, err code)
                | none ↦
                    let (after, status) =
                      prepare_image images digest_base digest uid_start gid_start calls in
                    elim status as (λ _. Images × Result Bytes) [
                      | some code ↦ (after, err code)
                      | none ↦ record_image after names_dir name digest rootfs calls
                    ]
              ]).0
      made none digest_base rootfs names_dir =
          record_image-IsConsistent names_dir digest rootfs
            (prepare_image images digest_base digest uid_start gid_start calls) size
            (prepare_image-Good past images old digest size calls now digest_base uid_start
              gid_start)
      made (some code) digest_base rootfs names_dir = old

      paths :
          (p : Option (Bytes × Bytes × Bytes)) (o : Option ℕ)
          → IsConsistent past
              (elim p as (λ _. Images × Result Bytes) [
                | none ↦ (images, err 2)
                | some (digest_base, rootfs, names_dir) ↦ elim o as (λ _. Images × Result Bytes) [
                  | some code ↦ (images, err code)
                  | none ↦
                      let (after, status) =
                        prepare_image images digest_base digest uid_start gid_start calls in
                      elim status as (λ _. Images × Result Bytes) [
                        | some code ↦ (after, err code)
                        | none ↦ record_image after names_dir name digest rootfs calls
                      ]
                ]
              ]).0
      paths none o = old
      paths (some (digest_base, rootfs, names_dir)) o = made o digest_base rootfs names_dir

  -- An import keeps the directory of the images consistent, whatever its calls return and wherever it
  -- fails: every name leads to the digest of an image with the file .complete, each directory with this
  -- file has all of the files of an extraction that came to its end and returned 0, that of this import
  -- or of an earlier one, and nothing but accepted entries is in the directories. `past` is any predicate
  -- that holds of the extractions of the earlier imports and of this one.
  pub import_image-IsConsistent : IsConsistent past (import_image images state_dir name calls).0
  unfolding import_image
  import_image-IsConsistent =
      choose (not (valid_name name)) (images, err 2)
        (if not calls.is_regular then (images, err 5) else rest) old
        (choose (not calls.is_regular) (images, err 5) rest old
          (digested (archive_digest calls.sha256) refl calls.ids))
    where
      rest : Images × Result Bytes
      rest = elim (archive_digest calls.sha256) as (λ _. Images × Result Bytes) [
        | err code ↦ (images, err code)
        | ok digest ↦ elim calls.ids as (λ _. Images × Result Bytes) [
          | err code ↦ (images, err code)
          | ok (uid_start, gid_start) ↦
              store_image images state_dir name digest uid_start gid_start calls
        ]
      ]

      choose :
          (b : Bool) (x y : Images × Result Bytes)
          → IsConsistent past x.0
          → IsConsistent past y.0
          → IsConsistent past (if b then x else y).0
      choose true x y h k = h
      choose false x y h k = k

      mapped :
          (digest : Bytes) (r : Result (ℕ × ℕ))
          → length digest ≡ 64
          → IsConsistent past
              (elim r as (λ _. Images × Result Bytes) [
                | err code ↦ (images, err code)
                | ok (uid_start, gid_start) ↦
                    store_image images state_dir name digest uid_start gid_start calls
              ]).0
      mapped digest (err code) size = old
      mapped digest (ok (uid_start, gid_start)) size =
          store_image-IsConsistent digest uid_start gid_start size

      digested :
          (r : Result Bytes)
          → archive_digest calls.sha256 ≡ r
          → (ids : Result (ℕ × ℕ))
          → IsConsistent past
              (elim r as (λ _. Images × Result Bytes) [
                | err code ↦ (images, err code)
                | ok digest ↦ elim ids as (λ _. Images × Result Bytes) [
                  | err code ↦ (images, err code)
                  | ok (uid_start, gid_start) ↦
                      store_image images state_dir name digest uid_start gid_start calls
                ]
              ]).0
      digested (err code) e ids = old
      digested (ok digest) e ids = mapped digest ids (length-archive_digest calls.sha256 digest e)

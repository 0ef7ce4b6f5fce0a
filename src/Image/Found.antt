-- ===== src/Image/Found.antt =====
-- image/import.c: an image that is imported is found under its name.
use minicontainer.Base.{
  ℕ, ◌≡◌, refl, sym, ap, ◌∙◌, Bool, true, false, not, Option, none, some, Bytes, codes, length,
  if◌then◌else◌, str_eq_refl, subst, some-injective, >>=-eq-some,
}
use minicontainer.Validate.Name.{valid_name}
use minicontainer.State.Registry.{Result, ok, err, path_max}
use minicontainer.State.Reconcile.{Outcome, written, kept, unsynced}
use minicontainer.Image.Store.{
  Images, Import, path_join, archive_digest, put_record, is_complete, prepare_image, digest_record,
  write_record, import_paths, record_image, store_image, import_image, resolve_digest,
  resolve_image,
}
use minicontainer.Image.Consistent.{IsConsistent, Good, prepare_image-Good}
use minicontainer.Image.Published.{length-archive_digest}
use minicontainer.Image.Record.{IsLine, archive_digest-IsLine, resolve_record-digest_record}

clash :
    {A : Type 0} {images after : Images} {code : ℕ} {a : Bytes}
    → ◌≡◌ {A = Images × Result Bytes} (images, err code) (after, ok a)
    → A
clash {A} {images} {after} {code} {a} e = absurd (no (ap (λ m. m.1) e))
  where
    no : err code ≡ ok a → ⊥
    no q = cc

module _ (images : Images) (old : IsConsistent (λ e. Unit {0}) images) (state_dir name : Bytes)
    (calls : Import) (after : Images) (rootfs : Bytes) where
  -- What holds of an import that returns 0.
  record IsImported (digest : Bytes) : Type 0 where
    size : length digest ≡ 64
    line : IsLine digest
    digest_base : Bytes
    names_dir : Bytes
    path : Bytes
    paths : import_paths state_dir digest ≡ some (digest_base, rootfs, names_dir)
    name_path : path_join path_max names_dir name ≡ some path
    recorded : after.record_of name ≡ some (digest_record digest)
    complete : is_complete after digest ≡ true

  write_record-ok :
      (mid : Images) (digest rootfs' : Bytes)
      → ◌≡◌ {A = Images × Result Bytes}
          (elim (write_record mid name digest calls).1 as (λ _. Images × Result Bytes) [
            | some code ↦ ((write_record mid name digest calls).0, err code)
            | none ↦ ((write_record mid name digest calls).0, ok rootfs')
          ])
          (after, ok rootfs)
      → (after ≡ put_record mid name (digest_record digest)) × (rootfs' ≡ rootfs)
  write_record-ok mid digest rootfs' e = go calls.name_outcome e
    where
      wrote : Outcome → Images × Option ℕ
      wrote o = elim o as (λ _. Images × Option ℕ) [
        | written ↦ (put_record mid name (digest_record digest), none)
        | kept ↦ (mid, some 7)
        | unsynced ↦ (put_record mid name (digest_record digest), some 7)
      ]

      ok-injective : ◌≡◌ {A = Result Bytes} (ok rootfs') (ok rootfs) → rootfs' ≡ rootfs
      ok-injective q = cc

      go :
          (o : Outcome)
          → ◌≡◌ {A = Images × Result Bytes}
              (elim (wrote o).1 as (λ _. Images × Result Bytes) [
                | some code ↦ ((wrote o).0, err code)
                | none ↦ ((wrote o).0, ok rootfs')
              ])
              (after, ok rootfs)
          → (after ≡ put_record mid name (digest_record digest)) × (rootfs' ≡ rootfs)
      go written q = (sym (ap (λ m. m.0) q), ok-injective (ap (λ m. m.1) q))
      go kept q = clash q
      go unsynced q = clash q

  record_image-ok :
      (names_dir digest rootfs' : Bytes) (m : Images × Option ℕ)
      → ◌≡◌ {A = Images × Result Bytes}
          (elim m.1 as (λ _. Images × Result Bytes) [
            | some code ↦ (m.0, err code)
            | none ↦ record_image m.0 names_dir name digest rootfs' calls
          ])
          (after, ok rootfs)
      → (path : Bytes) × (m.1 ≡ none)
        × (path_join path_max names_dir name ≡ some path)
        × (after ≡ put_record m.0 name (digest_record digest))
        × (rootfs' ≡ rootfs)
  record_image-ok names_dir digest rootfs' (mid, some code) e = clash e
  record_image-ok names_dir digest rootfs' (mid, none) e =
      go (path_join path_max names_dir name) refl e
    where
      go :
          (o : Option Bytes)
          → path_join path_max names_dir name ≡ o
          → ◌≡◌ {A = Images × Result Bytes}
              (elim o as (λ _. Images × Result Bytes) [
                | none ↦ (mid, err 2)
                | some path ↦
                    let (last, status) = write_record mid name digest calls in
                    elim status as (λ _. Images × Result Bytes) [
                      | some code ↦ (last, err code)
                      | none ↦ (last, ok rootfs')
                    ]
              ])
              (after, ok rootfs)
          → (path : Bytes) × (◌≡◌ {A = Option ℕ} none none)
            × (path_join path_max names_dir name ≡ some path)
            × (after ≡ put_record mid name (digest_record digest))
            × (rootfs' ≡ rootfs)
      go none p q = clash q
      go (some path) p q =
          let (wrote, same) = write_record-ok mid digest rootfs' q in (path, refl, p, wrote, same)

  store_image-ok :
      (digest : Bytes) (uid_start gid_start : ℕ)
      → length digest ≡ 64
      → IsLine digest
      → store_image images state_dir name digest uid_start gid_start calls ≡ (after, ok rootfs)
      → IsImported digest
  unfolding store_image Good
  store_image-ok digest uid_start gid_start size line e =
      paths (import_paths state_dir digest) refl calls.mkdir_error e
    where
      made :
          (o : Option ℕ) (digest_base rootfs' names_dir : Bytes)
          → import_paths state_dir digest ≡ some (digest_base, rootfs', names_dir)
          → ◌≡◌ {A = Images × Result Bytes}
              (elim o as (λ _. Images × Result Bytes) [
                | some code ↦ (images, err code)
                | none ↦
                    let (mid, status) =
                      prepare_image images digest_base digest uid_start gid_start calls in
                    elim status as (λ _. Images × Result Bytes) [
                      | some code ↦ (mid, err code)
                      | none ↦ record_image mid names_dir name digest rootfs' calls
                    ]
              ])
              (after, ok rootfs)
          → IsImported digest
      made none digest_base rootfs' names_dir p q =
          let prepared = prepare_image images digest_base digest uid_start gid_start calls in
          let (path, status, joined, wrote, same) =
            record_image-ok names_dir digest rootfs' prepared q in
          let full =
            (prepare_image-Good (λ e. Unit {0}) images old digest size calls tt digest_base
                uid_start gid_start).1
              status in
          record {
            size = size;
            line = line;
            digest_base = digest_base;
            names_dir = names_dir;
            path = path;
            paths =
                subst (λ r. import_paths state_dir digest ≡ some (digest_base, r, names_dir)) same
                  p;
            name_path = joined;
            recorded = ap (λ (i : Images). i.record_of name) wrote ∙ stored prepared.0;
            complete = ap (λ i. is_complete i digest) wrote ∙ full;
          }
        where
          stored :
              (mid : Images)
              → (put_record mid name (digest_record digest)).record_of name
                ≡ some (digest_record digest)
          stored mid = rw (str_eq_refl name) refl
      made (some code) digest_base rootfs' names_dir p q = clash q

      paths :
          (p : Option (Bytes × Bytes × Bytes))
          → import_paths state_dir digest ≡ p
          → (o : Option ℕ)
          → ◌≡◌ {A = Images × Result Bytes}
              (elim p as (λ _. Images × Result Bytes) [
                | none ↦ (images, err 2)
                | some (digest_base, rootfs', names_dir) ↦ elim o as (λ _. Images × Result Bytes) [
                  | some code ↦ (images, err code)
                  | none ↦
                      let (mid, status) =
                        prepare_image images digest_base digest uid_start gid_start calls in
                      elim status as (λ _. Images × Result Bytes) [
                        | some code ↦ (mid, err code)
                        | none ↦ record_image mid names_dir name digest rootfs' calls
                      ]
                ]
              ])
              (after, ok rootfs)
          → IsImported digest
      paths none p o q = clash q
      paths (some (digest_base, rootfs', names_dir)) p o q =
          made o digest_base rootfs' names_dir p q

  resolve_digest-IsImported :
      (digest : Bytes)
      → IsImported digest
      → resolve_digest after state_dir path_max digest ≡ ok rootfs
  resolve_digest-IsImported digest h =
      let (base, e1, r1) =
        >>=-eq-some (path_join path_max state_dir (codes "images/sha256")) _ h.paths in
      let (image_base, e2, r2) = >>=-eq-some (path_join path_max base digest) _ r1 in
      let (root, e3, r3) = >>=-eq-some (path_join path_max image_base (codes "rootfs")) _ r2 in
      let (marker, e4, r4) = >>=-eq-some (path_join path_max image_base (codes ".complete")) _ r3 in
      let (names, e5, r5) =
        >>=-eq-some (path_join path_max state_dir (codes "images/names")) _ r4 in
      let same : root ≡ rootfs =
        ap (λ (p : Bytes × Bytes × Bytes). p.1)
          (some-injective (base, root, names) (h.digest_base, rootfs, h.names_dir) r5) in
      rw (resolve_digest, e1, e2, e3, e4, h.complete, same) refl

  names_of :
      (digest : Bytes)
      → (h : IsImported digest)
      → path_join path_max state_dir (codes "images/names") ≡ some h.names_dir
  names_of digest h =
      let (base, e1, r1) =
        >>=-eq-some (path_join path_max state_dir (codes "images/sha256")) _ h.paths in
      let (image_base, e2, r2) = >>=-eq-some (path_join path_max base digest) _ r1 in
      let (root, e3, r3) = >>=-eq-some (path_join path_max image_base (codes "rootfs")) _ r2 in
      let (marker, e4, r4) = >>=-eq-some (path_join path_max image_base (codes ".complete")) _ r3 in
      let (names, e5, r5) =
        >>=-eq-some (path_join path_max state_dir (codes "images/names")) _ r4 in
      e5
      ∙ ap some (
          ap (λ (p : Bytes × Bytes × Bytes). p.2)
            (some-injective (base, root, names) (h.digest_base, rootfs, h.names_dir) r5))

  resolve_image-IsImported :
      (digest : Bytes)
      → IsImported digest
      → valid_name name ≡ true
      → resolve_image after state_dir true name path_max ≡ ok rootfs
  unfolding resolve_image
  resolve_image-IsImported digest h valid =
      rw (valid, names_of digest h, h.name_path, h.recorded)
        (resolve_record-digest_record after state_dir digest path_max h.size h.line
          ∙ resolve_digest-IsImported digest h)

  -- An image whose import has returned 0 is then found under its name, at the path that the import
  -- gave, in a directory of images that was consistent before; the record of the name can be read.
  pub resolve_image-import_image :
      import_image images state_dir name calls ≡ (after, ok rootfs)
      → resolve_image after state_dir true name path_max ≡ ok rootfs
  unfolding import_image
  resolve_image-import_image e = go (valid_name name) refl (not calls.is_regular) e
    where
      mapped :
          (digest : Bytes) (r : Result (ℕ × ℕ))
          → length digest ≡ 64
          → IsLine digest
          → (elim r as (λ _. Images × Result Bytes) [
            | err code ↦ (images, err code)
            | ok (uid_start, gid_start) ↦
                store_image images state_dir name digest uid_start gid_start calls
          ])
            ≡ (after, ok rootfs)
          → IsImported digest
      mapped digest (err code) size line q = clash q
      mapped digest (ok (uid_start, gid_start)) size line q =
          store_image-ok digest uid_start gid_start size line q

      digested :
          (r : Result Bytes)
          → archive_digest calls.sha256 ≡ r
          → (elim r as (λ _. Images × Result Bytes) [
            | err code ↦ (images, err code)
            | ok digest ↦ elim calls.ids as (λ _. Images × Result Bytes) [
              | err code ↦ (images, err code)
              | ok (uid_start, gid_start) ↦
                  store_image images state_dir name digest uid_start gid_start calls
            ]
          ])
            ≡ (after, ok rootfs)
          → (digest : Bytes) × IsImported digest
      digested (err code) d q = clash q
      digested (ok digest) d q = (
        digest,
        mapped digest calls.ids (length-archive_digest calls.sha256 digest d)
            (archive_digest-IsLine calls.sha256 digest d) q,
      )

      found :
          valid_name name ≡ true
          → (digest : Bytes) × IsImported digest
          → resolve_image after state_dir true name path_max ≡ ok rootfs
      found valid (digest, h) = resolve_image-IsImported digest h valid

      go :
          (valid : Bool)
          → valid_name name ≡ valid
          → (irregular : Bool)
          → (if not valid
              then (images, err 2)
              else if irregular
              then (images, err 5)
              else (elim (archive_digest calls.sha256) as (λ _. Images × Result Bytes) [
                | err code ↦ (images, err code)
                | ok digest ↦ elim calls.ids as (λ _. Images × Result Bytes) [
                  | err code ↦ (images, err code)
                  | ok (uid_start, gid_start) ↦
                      store_image images state_dir name digest uid_start gid_start calls
                ]
              ]))
            ≡ (after, ok rootfs)
          → resolve_image after state_dir true name path_max ≡ ok rootfs
      go false v i q = clash q
      go true v true q = clash q
      go true v false q = found v (digested (archive_digest calls.sha256) refl q)

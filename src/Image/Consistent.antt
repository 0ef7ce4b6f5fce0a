-- ===== src/Image/Consistent.antt =====
-- image/import.c: directories of images in which all has been checked, and the part of an import that
-- makes an image.
use minicontainer.Base.{
  ℕ, zero, suc, ◌≤◌, ◌≡◌, ◌≢◌, ◌⊎◌, inl, inr, refl, sym, ◌∙◌, Bool, true, false, not, Option, none,
  some, List, [], ◌∷◌, ◌++◌, arith, Bytes, codes, length, All, if◌then◌else◌, is_some, take, str_eq,
  str_eq_iff, str_eq_refl, length-append, subst, some-injective, All-append, All-map, ap,
  append_assoc,
}
use minicontainer.State.Reconcile.{Outcome, written, kept, unsynced}
use minicontainer.Image.Entry.{Entry, extract_archive, Extraction}
use minicontainer.Image.Safe.{IsSafe, extract_archive-IsSafe}
use minicontainer.Image.Store.{
  Image, Images, Import, put_directory, is_complete, staging_name, staged, with_entries, publish,
  seal_image, fill_staging, prepare_image, digest_record,
}

-- An entry that was written by an extraction with some ranges of ids.
pub record IsContained (entry : Entry) : Type 0 where
  pub uid_start : ℕ
  pub gid_start : ℕ
  pub safe : IsSafe uid_start gid_start entry

-- All is there that one of the past extractions has written, and this extraction came to its end and
-- returned 0: no entry of its archive was refused, and no call failed.
pub record IsExtracted (past : Extraction → Type 0) (entries : List Entry) : Type 0 where
  pub uid_start : ℕ
  pub gid_start : ℕ
  pub extraction : Extraction
  pub known : past extraction
  pub files : List Entry
  pub before : List Entry
  pub rest : List Entry
  pub returned : extract_archive uid_start gid_start extraction ≡ (files, none)
  pub among : entries ≡ before ++ (files ++ rest)

-- What holds of every directory: its entries were accepted, and if it has the file .complete, it has
-- all of the files of a past extraction that returned 0.
pub record IsChecked (past : Extraction → Type 0) (image : Image) : Type 0 where
  pub contained : All IsContained image.entries
  pub extracted : image.marker ≢ none → IsExtracted past image.entries

-- The directories are checked, and each name leads to the digest of an image that is complete. `past`
-- holds of the extractions of the imports so far.
pub record IsConsistent (past : Extraction → Type 0) (images : Images) : Type 0 where
  pub checked :
      (key : Bytes) (image : Image) → images.directory key ≡ some image → IsChecked past image
  pub recorded :
      (name content : Bytes)
      → images.record_of name ≡ some content
      → (digest : Bytes) × (length digest ≡ 64)
        × (content ≡ digest_record digest)
        × (is_complete images digest ≡ true)

abbrev is_full : Option Image → Bool
is_full none = false
is_full (some image) = is_some image.marker

is_complete-is_full :
    (images : Images) (key : Bytes) → is_complete images key ≡ is_full (images.directory key)
is_complete-is_full images key = go (images.directory key)
  where
    go :
        (o : Option Image)
        → (elim o [ none ↦ false | some image ↦ is_some image.marker ]) ≡ is_full o
    go none = refl
    go (some image) = refl

abbrev Holds : (Extraction → Type 0) → Option Image → Type 0
Holds past none = Unit {0}
Holds past (some image) = IsChecked past image

-- A directory may be replaced if it is not that of a digest, or if it is then complete.
put_directory-IsConsistent :
    (past : Extraction → Type 0) (images : Images) (key : Bytes) (o : Option Image)
    → Holds past o
    → (length key ≢ 64) ⊎ (is_full o ≡ true)
    → IsConsistent past images
    → IsConsistent past (put_directory images key o)
put_directory-IsConsistent past images key o holds apart old = record {
  checked = λ other image. inside other (str_eq other key) image;
  recorded = λ name content e.
      let (digest, size, same, full) = old.recorded name content e in
      (digest, size, same, still digest size full);
}
  where
    held : (o : Option Image) (image : Image) → Holds past o → o ≡ some image → IsChecked past image
    held none image h e = cc
    held (some i) image h e = subst (IsChecked past) (some-injective i image e) h

    inside :
        (other : Bytes) (b : Bool) (image : Image)
        → (if b then o else images.directory other) ≡ some image
        → IsChecked past image
    inside other true image e = held o image holds e
    inside other false image e = old.checked other image e

    here :
        (digest : Bytes)
        → digest ≡ key
        → length digest ≡ 64
        → (length key ≢ 64) ⊎ (is_full o ≡ true)
        → is_full o ≡ true
    here digest same size (inl ne) = absurd (ne (subst (λ d. length d ≡ 64) same size))
    here digest same size (inr full) = full

    still :
        (digest : Bytes)
        → length digest ≡ 64
        → is_complete images digest ≡ true
        → is_complete (put_directory images key o) digest ≡ true
    still digest size full =
        is_complete-is_full (put_directory images key o) digest ∙ go (str_eq digest key) refl
      where
        go :
            (b : Bool)
            → str_eq digest key ≡ b
            → is_full (if b then o else images.directory digest) ≡ true
        go true e = here digest ((str_eq_iff digest key).0 e) size apart
        go false e = sym (is_complete-is_full images digest) ∙ full

-- What holds of the directory after a call, and, where it returns 0, of the image.
unfoldable pub Good : (Extraction → Type 0) → Bytes → Images × Option ℕ → Type 0
Good past digest m = IsConsistent past m.0 × (m.1 ≡ none → is_complete m.0 digest ≡ true)

failed :
    (past : Extraction → Type 0) (digest : Bytes) (images : Images) (code : ℕ)
    → IsConsistent past images
    → Good past digest (images, some code)
unfolding Good
failed past digest images code h = (h, λ e. cc)

-- Entries that a failed extraction adds take nothing away.
more_entries :
    (past : Extraction → Type 0) {image : Image} (files : List Entry)
    → IsChecked past image
    → All IsContained files
    → IsChecked past (with_entries image files)
more_entries past {image} files old h = record {
  contained = All-append IsContained files image.entries h old.contained;
  extracted = λ m.
      let whole = old.extracted m in
      record {
        uid_start = whole.uid_start;
        gid_start = whole.gid_start;
        extraction = whole.extraction;
        known = whole.known;
        files = whole.files;
        before = files ++ whole.before;
        rest = whole.rest;
        returned = whole.returned;
        among =
            ap (λ entries. files ++ entries) whole.among
            ∙ sym (append_assoc files whole.before (whole.files ++ whole.rest));
      };
}

module _ (past : Extraction → Type 0) (images : Images) (old : IsConsistent past images)
    (key digest : Bytes) (ne : length key ≢ 64) (calls : Import) (now : past calls.extraction) where
  staging :
      (image : Image)
      → IsChecked past image
      → IsConsistent past (put_directory images key (some image))
  staging image h = put_directory-IsConsistent past images key (some image) h (inl ne) old

  seal_image-Good :
      (image : Image)
      → All IsContained image.entries
      → IsExtracted past image.entries
      → Good past digest (seal_image images key digest image calls)
  unfolding Good
  seal_image-Good image h whole = go calls.marker_outcome calls.publishes
    where
      marked : Image
      marked = record image { marker = some digest }

      good : (i : Image) → i.entries ≡ image.entries → IsChecked past i
      good i e = record {
        contained = subst (All IsContained) (sym e) h;
        extracted = λ m. subst (IsExtracted past) (sym e) whole;
      }

      moved :
          (b : Bool)
          → Good past digest (
              if b
              then (publish images key digest marked, none)
              else (put_directory images key (some marked), some 7))
      moved true = (
        put_directory-IsConsistent past (put_directory images key none) digest (some marked)
            (good marked refl) (inr (full marked refl))
            (put_directory-IsConsistent past images key none tt (inl ne) old),
        λ e. rw (is_complete, str_eq_refl digest) refl,
      )
        where
          full : (i : Image) → i.marker ≡ some digest → is_full (some i) ≡ true
          full i e = rw e refl
      moved false = failed past digest _ 7 (staging marked (good marked refl))

      go :
          (o : Outcome) (b : Bool)
          → Good past digest (elim o as (λ _. Images × Option ℕ) [
            | kept ↦ (put_directory images key (some image), some 7)
            | unsynced ↦ (put_directory images key (some marked), some 7)
            | written ↦
                if b
                then (publish images key digest marked, none)
                else (put_directory images key (some marked), some 7)
          ])
      go written b = moved b
      go kept b = failed past digest _ 7 (staging image (good image refl))
      go unsynced b = failed past digest _ 7 (staging marked (good marked refl))

  fill_staging-Good :
      (uid_start gid_start : ℕ)
      → Good past digest (fill_staging images key digest uid_start gid_start calls)
  unfolding fill_staging
  fill_staging-Good uid_start gid_start =
      go (not calls.chowns) (extract_archive uid_start gid_start calls.extraction) refl more
    where
      before : IsChecked past (staged images key)
      before = pick (images.directory key) refl
        where
          pick :
              (o : Option Image)
              → images.directory key ≡ o
              → IsChecked past (elim o as (λ _. Image) [
                | none ↦ record { entries = []; marker = none }
                | some image ↦ image
              ])
          pick none e = record { contained = tt; extracted = λ m. absurd (m refl) }
          pick (some image) e = old.checked key image e

      more : All IsContained (extract_archive uid_start gid_start calls.extraction).0
      more =
          All-map (IsSafe uid_start gid_start) IsContained
            (λ entry safe. record { uid_start = uid_start; gid_start = gid_start; safe = safe }) _
            (extract_archive-IsSafe uid_start gid_start calls.extraction)

      extracted :
          (files : List Entry) (status : Option ℕ)
          → extract_archive uid_start gid_start calls.extraction ≡ (files, status)
          → All IsContained files
          → Good past digest (elim status as (λ _. Images × Option ℕ) [
            | some code ↦ (
              put_directory images key (some (with_entries (staged images key) files)),
              some code,
            )
            | none ↦ seal_image images key digest (with_entries (staged images key) files) calls
          ])
      extracted files none e h =
          seal_image-Good (with_entries (staged images key) files)
            (All-append IsContained _ _ h before.contained)
            (record {
              uid_start = uid_start;
              gid_start = gid_start;
              extraction = calls.extraction;
              known = now;
              files = files;
              before = [];
              rest = (staged images key).entries;
              returned = e;
              among = refl;
            })
      extracted files (some code) e h =
          failed past digest _ code
            (staging (with_entries (staged images key) files) (more_entries past files before h))

      go :
          (b : Bool) (r : List Entry × Option ℕ)
          → extract_archive uid_start gid_start calls.extraction ≡ r
          → All IsContained r.0
          → Good past digest (
              if b
              then (put_directory images key (some (staged images key)), some 0)
              else (elim r.1 as (λ _. Images × Option ℕ) [
                | some code ↦ (
                  put_directory images key (some (with_entries (staged images key) r.0)),
                  some code,
                )
                | none ↦ seal_image images key digest (with_entries (staged images key) r.0) calls
              ]))
      go true r e h = failed past digest _ 0 (staging (staged images key) before)
      go false r e h = extracted r.0 r.1 e h

length-take_min : (n : ℕ) (s : Bytes) → 65 ≤ n → 65 ≤ length s → 65 ≤ length (take n s)
length-take_min n s h k = long n 65 s h k
  where
    long : (n m : ℕ) (s : Bytes) → m ≤ n → m ≤ length s → m ≤ length (take n s)
    long n zero s h k = omega arith
    long zero (suc m) s h k = absurd (omega arith)
    long (suc n) (suc m) [] h k = absurd (omega arith)
    long (suc n) (suc m) (c ∷ s) h k = omega (arith, long n m s (omega arith) (omega arith))

-- The name of a staging directory is longer than a digest.
length-staging_name :
    (digest pid : Bytes) → length digest ≡ 64 → length (staging_name digest pid) ≢ 64
length-staging_name digest pid size e =
    let total = length-append digest (codes ".import." ++ pid) in
    let long : 65 ≤ length (take 95 (digest ++ (codes ".import." ++ pid))) =
      length-take_min 95 _ (omega arith)
        (omega (arith, total, length-append (codes ".import.") pid)) in
    omega (arith, long, e)

module _ (past : Extraction → Type 0) (images : Images) (old : IsConsistent past images)
    (digest : Bytes) (size : length digest ≡ 64) (calls : Import)
    (now : past calls.extraction) where
  pub prepare_image-Good :
      (digest_base : Bytes) (uid_start gid_start : ℕ)
      → Good past digest (prepare_image images digest_base digest uid_start gid_start calls)
  unfolding prepare_image Good
  prepare_image-Good digest_base uid_start gid_start = complete (is_complete images digest) _ refl (
      choose _ _ _ (failed past digest images 4 old)
        (choose _ _ _ (failed past digest images 2 old) (made calls.staging_error)))
    where
      choose :
          (b : Bool) (x y : Images × Option ℕ)
          → Good past digest x
          → Good past digest y
          → Good past digest (if b then x else y)
      choose true x y h k = h
      choose false x y h k = k

      key : Bytes
      key = staging_name digest calls.pid

      made :
          (o : Option ℕ)
          → Good past digest (elim o as (λ _. Images × Option ℕ) [
            | some code ↦ (images, some code)
            | none ↦ fill_staging images key digest uid_start gid_start calls
          ])
      made none =
          fill_staging-Good past images old key digest (length-staging_name digest calls.pid size)
            calls now uid_start gid_start
      made (some code) = failed past digest images code old

      complete :
          (b : Bool) (y : Images × Option ℕ)
          → is_complete images digest ≡ b
          → Good past digest y
          → Good past digest (if b then (images, none) else y)
      complete true y e h = (old, λ q. e)
      complete false y e h = h

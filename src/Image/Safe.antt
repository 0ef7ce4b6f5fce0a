-- ===== src/Image/Safe.antt =====
-- image/import.c: what is extracted stays beneath the image and within the ids of the containers.
use minicontainer.Base.{
  ℕ, ◌+◌, ◌/◌, ◌%◌, ◌≤◌, ◌<◌, ◌≡◌, ◌≢◌, refl, sym, ap, ◌∙◌, Bool, true, false, not, ◌||◌, Option,
  none, some, List, [], ◌∷◌, arith, Bytes, All, if◌then◌else◌, ltb-false→le, subst, some-injective,
  ==_iff,
}
use minicontainer.Validate.Path.{safe_archive_path, link_stays_beneath}
use minicontainer.Validate.Path.Safe.{IsBeneath, safe_archive_path-IsBeneath}
use minicontainer.Validate.Path.Links.{link_resolves, link_stays_beneath-link_resolves}
use minicontainer.Image.Entry.{
  ℤ, pos, negsuc, FileType, block_device, character_device, fifo, socket, Entry, strip_dots,
  is_special, sets_id, bad_owner, add_start, shifted, link_is_unsafe, Verdict, skip, refuse, accept,
  validate_path, validate_entry, extract_loop, Extraction, extract_archive, and_return,
}

-- One of the 65536 ids that belong to the containers.
abbrev pub IsOwned : ℕ → ℤ → Type 0
IsOwned start (pos n) = (start ≤ n) × (n < start + 65536)
IsOwned start (negsuc n) = ⊥

abbrev IsPlain : FileType → Type 0
IsPlain type = (type ≢ block_device) × (type ≢ character_device) × (type ≢ fifo) × (type ≢ socket)

-- An entry that is written at a path beneath the image, whose links resolve beneath it, and which is
-- no device, pipe or socket, sets no id, and belongs to an id of the containers.
pub record IsSafe (uid_start gid_start : ℕ) (entry : Entry) : Type 0 where
  pub path : Bytes
  pub named : entry.pathname ≡ some path
  pub beneath : IsBeneath path
  pub symlinks : (target : Bytes) → entry.symlink ≡ some target → link_resolves path target ≡ true
  pub hardlinks : (target : Bytes) → entry.hardlink ≡ some target → IsBeneath target
  pub plain : IsPlain entry.type
  pub no_ids : entry.permissions / 1024 % 4 ≡ 0
  pub uid_owned : IsOwned uid_start entry.uid
  pub gid_owned : IsOwned gid_start entry.gid

plain_type : (type : FileType) → is_special type ≡ false → IsPlain type
plain_type type h =
    (λ e. not_plain e refl, λ e. not_plain e refl, λ e. not_plain e refl, λ e. not_plain e refl)
  where
    clash : ◌≡◌ {A = Bool} true false → ⊥
    clash e = cc

    not_plain : {special : FileType} → type ≡ special → is_special special ≡ true → ⊥
    not_plain e t = clash (sym t ∙ (ap is_special (sym e) ∙ h))

not-eq-false : (b : Bool) → not b ≡ false → b ≡ true
not-eq-false b h = ground arith

neither : (a b : Bool) → (a || b) ≡ false → (a ≡ false) × (b ≡ false)
neither a b h = ground arith

-- A test that does not refuse the entry.
passed :
    (b : Bool) (v : Verdict) {changed : Entry}
    → (if b then refuse else v) ≡ accept changed
    → (b ≡ false) × (v ≡ accept changed)
passed true v {changed} e = absurd (clash e)
  where
    clash : refuse ≡ accept changed → ⊥
    clash q = cc
passed false v e = (refl, e)

accept-injective : {a b : Entry} → accept a ≡ accept b → a ≡ b
accept-injective q = cc

link_passed :
    (test : Bytes → Bool) (o : Option Bytes) (target : Bytes)
    → (elim o [ none ↦ false | some target ↦ not (test target) ]) ≡ false
    → o ≡ some target
    → test target ≡ true
link_passed test none target h e = cc
link_passed test (some t) target h e =
    let same : t ≡ target = some-injective t target e in
    ap test (sym same) ∙ not-eq-false (test t) h

IsOwned-add_start :
    (start : ℕ) (owner : ℤ) → bad_owner owner ≡ false → IsOwned start (add_start start owner)
IsOwned-add_start start (pos n) h = (omega arith, ground (arith, ltb-false→le 65535 n h))
IsOwned-add_start start (negsuc n) h = cc

module _ (uid_start gid_start : ℕ) where
  shifted-IsSafe :
      (path : Bytes) (entry : Entry)
      → safe_archive_path path ≡ true
      → link_is_unsafe path entry ≡ false
      → is_special entry.type ≡ false
      → sets_id entry.permissions ≡ false
      → (bad_owner entry.uid || bad_owner entry.gid) ≡ false
      → IsSafe uid_start gid_start (shifted uid_start gid_start path entry)
  shifted-IsSafe path entry safe links plain ids owners =
      let (symlink, hardlink) = neither _ _ links in
      let (uid, gid) = neither _ _ owners in
      record {
        path = path;
        named = refl;
        beneath = (safe_archive_path-IsBeneath path).0 safe;
        symlinks = λ target e.
            sym (link_stays_beneath-link_resolves path target)
            ∙ link_passed (link_stays_beneath path) entry.symlink target symlink e;
        hardlinks = λ target e.
            (safe_archive_path-IsBeneath target).0
              (link_passed safe_archive_path entry.hardlink target hardlink e);
        plain = plain_type entry.type plain;
        no_ids = (==_iff (entry.permissions / 1024 % 4) 0).0 (not-eq-false _ ids);
        uid_owned = IsOwned-add_start uid_start entry.uid uid;
        gid_owned = IsOwned-add_start gid_start entry.gid gid;
      }

  validate_path-IsSafe :
      (path : Bytes) (entry : Entry) {changed : Entry}
      → validate_path uid_start gid_start path entry ≡ accept changed
      → IsSafe uid_start gid_start changed
  validate_path-IsSafe [] entry {changed} e = absurd (clash e)
    where
      clash : skip ≡ accept changed → ⊥
      clash q = cc
  validate_path-IsSafe (c ∷ s) entry {changed} e =
      let (safe, e1) = passed (not (safe_archive_path (c ∷ s))) _ e in
      let (links, e2) = passed (link_is_unsafe (c ∷ s) entry) _ e1 in
      let (plain, e3) = passed (is_special entry.type) _ e2 in
      let (ids, e4) = passed (sets_id entry.permissions) _ e3 in
      let (owners, e5) = passed (bad_owner entry.uid || bad_owner entry.gid) _ e4 in
      subst (IsSafe uid_start gid_start) (accept-injective e5)
        (shifted-IsSafe (c ∷ s) entry (not-eq-false _ safe) links plain ids owners)

  validate_entry-IsSafe :
      (entry changed : Entry)
      → validate_entry uid_start gid_start entry ≡ accept changed
      → IsSafe uid_start gid_start changed
  unfolding validate_entry
  validate_entry-IsSafe entry changed e = go entry.pathname e
    where
      clash : skip ≡ accept changed → ⊥
      clash q = cc

      go :
          (o : Option Bytes)
          → (elim o [
            | none ↦ skip
            | some path ↦ validate_path uid_start gid_start (strip_dots path) entry
          ])
            ≡ accept changed
          → IsSafe uid_start gid_start changed
      go none q = absurd (clash q)
      go (some path) q = validate_path-IsSafe (strip_dots path) entry q

  extract_loop-IsSafe :
      (complete : Bool) (entries : List (Entry × Bool)) (written : List Entry)
      → All (IsSafe uid_start gid_start) written
      → All
          (IsSafe uid_start gid_start)
          (extract_loop uid_start gid_start complete entries written).0
  unfolding extract_loop
  extract_loop-IsSafe complete [] written h = h
  extract_loop-IsSafe complete ((entry, extracts) ∷ entries) written h =
      go (validate_entry uid_start gid_start entry) refl
        (extract_loop-IsSafe complete entries written h)
        (λ changed safe. extract_loop-IsSafe complete entries (changed ∷ written) (safe, h))
    where
      stop :
          (b : Bool) (changed : Entry) (next : List Entry × Option ℕ)
          → IsSafe uid_start gid_start changed
          → All (IsSafe uid_start gid_start) next.0
          → All (IsSafe uid_start gid_start) (if b then next else (changed ∷ written, some 7)).0
      stop true changed next safe n = n
      stop false changed next safe n = (safe, h)

      go :
          (v : Verdict)
          → validate_entry uid_start gid_start entry ≡ v
          → All
              (IsSafe uid_start gid_start)
              (extract_loop uid_start gid_start complete entries written).0
          → ((changed : Entry)
              → IsSafe uid_start gid_start changed
              → All
                  (IsSafe uid_start gid_start)
                  (extract_loop uid_start gid_start complete entries (changed ∷ written)).0)
          → All
              (IsSafe uid_start gid_start)
              (elim v as (λ _. List Entry × Option ℕ) [
                | skip ↦ extract_loop uid_start gid_start complete entries written
                | refuse ↦ (written, some 2)
                | accept changed ↦
                    if extracts
                    then extract_loop uid_start gid_start complete entries (changed ∷ written)
                    else (changed ∷ written, some 7)
              ]).0
      go skip e s n = s
      go refuse e s n = h
      go (accept changed) e s n =
          let safe = validate_entry-IsSafe entry changed e in
          stop extracts changed
            (extract_loop uid_start gid_start complete entries (changed ∷ written)) safe
            (n changed safe)

  -- Everything that is extracted from an archive, also where the extraction fails, is written at a path
  -- beneath the image, has links that resolve beneath it, is no device, pipe or socket, has neither a
  -- setuid nor a setgid bit, and is owned by one of the 65536 ids that start at the given numbers.
  pub extract_archive-IsSafe :
      (e : Extraction) → All (IsSafe uid_start gid_start) (extract_archive uid_start gid_start e).0
  unfolding extract_archive
  extract_archive-IsSafe e = go (not e.initialises) (not e.opens)
    where
      loop : List Entry × Option ℕ
      loop = extract_loop uid_start gid_start e.archive.complete e.archive.entries []

      go :
          (b c : Bool)
          → All
              (IsSafe uid_start gid_start)
              (if◌then◌else◌ {A = List Entry × Option ℕ} b
                ([], some 125)
                (if c then ([], some 7) else (loop.0, and_return e.returns loop.1))).0
      go true c = tt
      go false true = tt
      go false false = extract_loop-IsSafe e.archive.complete e.archive.entries [] tt

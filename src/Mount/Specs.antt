-- ===== src/Mount/Specs.antt =====
-- Bind and tmpfs mounts: what an accepted specification promises, and what the shim reads of it.
use minicontainer.Base.{
  ℕ, ◌≤◌, ◌<◌, ◌≡◌, ◌↔◌, refl, sym, ap, true, false, not, ◌||◌, Option, none, some, List, [], ◌∷◌,
  arith, Bytes, if◌then◌else◌, ◌>>=◌, any, >>=-eq-some, break_at, subst, Exists, any-Exists,
  some-injective,
}
use minicontainer.Resource.{parse_bytes}
use minicontainer.Resource.Sizes.{parse_bytes-exact}
use minicontainer.Mount.{
  Mount, bind, tmpfs, tmpfs_max, valid_target, parse_tmpfs_mount, Host, bind_allowed,
  parse_bind_mount, under_path, tmpfs_size, tmpfs_mount, entry_covers, resolve_source, bind_parts,
  is_readonly, is_absolute, valid_mode,
}
use minicontainer.Mount.Target.{IsUnder, under_path-IsUnder, IsUnder-under_path}

tmpfs_size_bounds :
    (text : Option Bytes) {size : ℕ} → tmpfs_size text ≡ some size → (0 < size) × (size ≤ tmpfs_max)
tmpfs_size_bounds none h = ground arith
tmpfs_size_bounds (some text) {size} h =
    let (n, parsed, checked) = >>=-eq-some (parse_bytes text) _ {b = size} h in
    let (m, unit, e, pos, fits) = parse_bytes-exact text {bytes = n} parsed in ground (arith, pos)

tmpfs_mount-some :
    (target : Bytes) (size : ℕ) {m : Mount}
    → tmpfs_mount target size ≡ some m
    → (m ≡ record { type = tmpfs; source = none; target = target; size = size; readonly = false })
      × (valid_target target ≡ true)
tmpfs_mount-some target size h = ground arith

empty_target : {m : Mount} → parse_tmpfs_mount [] ≡ some m → ⊥
unfolding parse_tmpfs_mount valid_target
empty_target h = cc

accepted_tmpfs :
    (c : ℕ) (value : Bytes) {m : Mount}
    → parse_tmpfs_mount (c ∷ value) ≡ some m
    → (size : ℕ) × ((0 < size) × (size ≤ tmpfs_max))
      × (m ≡ record {
        type = tmpfs;
        source = none;
        target = c ∷ (break_at b':' value).0;
        size = size;
        readonly = false;
      })
      × (valid_target (c ∷ (break_at b':' value).0) ≡ true)
unfolding parse_tmpfs_mount
accepted_tmpfs c value {m} h =
    let (size, sized, made) = >>=-eq-some (tmpfs_size (break_at b':' value).1) _ {b = m} h in
    let bounds = tmpfs_size_bounds (break_at b':' value).1 {size = size} sized in
    let (shape, target) = tmpfs_mount-some (c ∷ (break_at b':' value).0) size {m = m} made in
    (size, bounds, shape, target)

-- An accepted tmpfs mount has a size of at least one byte and at most 1 GiB, and a target that
-- `valid_target` accepts.
pub parse_tmpfs_mount_bounds :
    (value : Bytes) {m : Mount}
    → parse_tmpfs_mount value ≡ some m
    → (m.type ≡ tmpfs) × (0 < m.size) × (m.size ≤ tmpfs_max) × (valid_target m.target ≡ true)
parse_tmpfs_mount_bounds [] {m} h = absurd (empty_target h)
parse_tmpfs_mount_bounds (c ∷ value) {m} h =
    let (size, (pos, fits), shape, target) = accepted_tmpfs c value {m = m} h in
    (ap (λ r. r.type) shape, rw shape pos, rw shape fits, rw shape target)

module _ (host : Host) where
  -- The entry of the allow list resolves to a directory that is the source or lies above it.
  abbrev pub Covers : Bytes → Bytes → Type 0
  Covers source entry =
      (resolved : Bytes) × (host.realpath entry ≡ some resolved) × IsUnder source resolved

  entry_covers-Covers :
      (source entry : Bytes) → (entry_covers host source entry ≡ true) ↔ Covers source entry
  entry_covers-Covers source entry = go (host.realpath entry)
    where
      go :
          (o : Option Bytes)
          → ((elim o [ none ↦ false | some resolved ↦ under_path source resolved ]) ≡ true)
            ↔ ((resolved : Bytes) × (o ≡ some resolved) × IsUnder source resolved)
      go none = (λ h. cc, λ (r, e, u). cc)
      go (some r) = (
        λ h. (r, refl, under_path-IsUnder source r h),
        λ (r', e, u).
            IsUnder-under_path source r
              (subst (λ d. IsUnder source d) (sym (some-injective r r' e)) u),
      )

  -- What an accepted bind mount promises. The source is what realpath gives for some absolute path.
  pub record IsBind (m : Mount) : Type 0 where
    pub type : m.type ≡ bind
    pub target : valid_target m.target ≡ true
    pub source : Bytes
    pub is_source : m.source ≡ some source
    pub given : Bytes
    pub absolute : is_absolute given ≡ true
    pub resolved : host.realpath given ≡ some source
    pub directory : host.is_directory source ≡ true
    pub entries : List Bytes
    pub listed : host.allowed_bind_sources ≡ some entries
    pub covered : Exists (Covers source) entries

  bind_allowed-Covers :
      (source : Bytes)
      → bind_allowed host source ≡ true
      → (entries : List Bytes) × (host.allowed_bind_sources ≡ some entries)
        × Exists (Covers source) entries
  unfolding bind_allowed
  bind_allowed-Covers source h = go host.allowed_bind_sources h
    where
      go :
          (o : Option (List Bytes))
          → (elim o [ none ↦ false | some entries ↦ any (entry_covers host source) entries ]) ≡ true
          → (entries : List Bytes) × (o ≡ some entries) × Exists (Covers source) entries
      go none h' = cc
      go (some entries) h' = (
        entries,
        refl,
        (any-Exists (entry_covers host source) (entry_covers-Covers source) entries).0 h',
      )

  resolve_source-some :
      (copy : Bytes) {source : Bytes}
      → resolve_source host copy ≡ some source
      → (host.is_directory source ≡ true)
        × (bind_allowed host source ≡ true)
        × (host.realpath copy ≡ some source)
  resolve_source-some copy {source} h =
      let (resolved, e, checked) = >>=-eq-some (host.realpath copy) _ {b = source} h in ground arith

  bind_parts-some :
      (copy target : Bytes) (mode : Option Bytes) {m : Mount}
      → bind_parts host copy (target, mode) ≡ some m
      → (source : Bytes) × (resolve_source host copy ≡ some source)
        × (m ≡ record {
          type = bind;
          source = some source;
          target = target;
          size = 0;
          readonly = is_readonly host mode;
        })
        × (valid_target target ≡ true)
        × (is_absolute copy ≡ true)
  bind_parts-some copy target mode {m} h = go (resolve_source host copy) h
    where
      go :
          (o : Option Bytes)
          → (if not (is_absolute copy) || not (valid_target target) || not (valid_mode host mode)
              then none
              else (o >>= λ resolved. some (record {
                type = bind;
                source = some resolved;
                target = target;
                size = 0;
                readonly = is_readonly host mode;
              })))
            ≡ some m
          → (source : Bytes) × (o ≡ some source)
            × (m ≡ record {
              type = bind;
              source = some source;
              target = target;
              size = 0;
              readonly = is_readonly host mode;
            })
            × (valid_target target ≡ true)
            × (is_absolute copy ≡ true)
      go none h' = ground arith
      go (some source) h' = (source, refl, ground arith, ground arith, ground arith)

  -- An accepted value is SOURCE:TARGET or SOURCE:TARGET:MODE. The target of the mount is TARGET, which
  -- `valid_target` accepts; its source is what realpath gives for SOURCE, which is a
  -- directory and is, or lies below, the resolved directory of some entry of the allow list; and SOURCE
  -- is absolute.
  pub parse_bind_mount-IsBind :
      (value : Bytes) {m : Mount}
      → parse_bind_mount host value ≡ some m
      → (bound : IsBind m) × (bound.given ≡ (break_at b':' value).0)
        × (rest : Bytes) × ((break_at b':' value).1 ≡ some rest)
        × (m.target ≡ (break_at b':' rest).0)
  unfolding parse_bind_mount
  parse_bind_mount-IsBind value {m} h =
      let (rest, cut, parts) = >>=-eq-some (break_at b':' value).1 _ {b = m} h in
      let (copy, target, mode) : Bytes × Bytes × Option Bytes =
        ((break_at b':' value).0, (break_at b':' rest).0, (break_at b':' rest).1) in
      let (source, resolved, shape, valid, rooted) =
        bind_parts-some copy target mode {m = m} parts in
      let (directory, allowed, real) = resolve_source-some copy {source = source} resolved in
      let (entries, listed, covered) = bind_allowed-Covers source allowed in
      (
        record {
          type = ap (λ r. r.type) shape;
          target = rw shape valid;
          source = source;
          is_source = ap (λ r. r.source) shape;
          given = copy;
          absolute = rooted;
          resolved = real;
          directory = directory;
          entries = entries;
          listed = listed;
          covered = covered;
        },
        refl,
        rest,
        cut,
        ap (λ r. r.target) shape,
      )

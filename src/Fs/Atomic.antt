-- ===== src/Fs/Atomic.antt =====
-- util/fs.c: a reader finds the old contents of the file or all of the new ones.
use minicontainer.Base.{
  ℕ, ◌+◌, ◌≤◌, ◌<◌, ◌≡◌, ◌≢◌, refl, sym, ap, ◌∙◌, Bool, true, false, not, ◌||◌, Option, none, some,
  List, [], ◌∷◌, ◌++◌, arith, Bytes, codes, length, if◌then◌else◌, is_some, take, take_all,
  length-append, str_eq, str_eq_iff, str_eq_refl, not_iff, ◌&&◌, leb,
}
use minicontainer.State.Reconcile.{Outcome, written, kept, unsynced}
use minicontainer.Fs.Write.{
  Files, Calls, set_file, temporary_name, write_data, replace, write_atomic, sync_parent,
}

-- The bytes that the calls of write store before the first that fails.
abbrev pub progress : List (Option ℕ) → ℕ
progress [] = 0
progress (none ∷ counts) = 0
progress (some count ∷ counts) = count + progress counts

-- Every call up to the rename works, and the temporary file is new.
pub record IsReplaced (calls : Calls) (files : Files) (temporary bytes : Bytes) : Type 0 where
  pub creates : calls.creates ≡ true
  pub new : files temporary ≡ none
  pub stores : length bytes ≤ progress calls.counts
  pub syncs : calls.syncs ≡ true
  pub closes : calls.closes ≡ true
  pub renames : calls.renames ≡ true

-- The calls on the parent directory work.
abbrev pub IsSynced : Calls → Type 0
IsSynced calls =
    (calls.opens_directory ≡ true)
    × (calls.syncs_directory ≡ true)
    × (calls.closes_directory ≡ true)

-- What an outcome says of the calls, of the file, and of the return value.
abbrev pub IsOutcome : Outcome → Calls → Files → Bytes → Bytes → Bytes → Files × Option ℕ → Type 0
IsOutcome written calls files path temporary bytes (after, status) =
    IsReplaced calls files temporary bytes
    × IsSynced calls
    × (after path ≡ some bytes)
    × (status ≡ none)
IsOutcome kept calls files path temporary bytes (after, status) =
    (¬ IsReplaced calls files temporary bytes) × (after path ≡ files path) × (status ≢ none)
IsOutcome unsynced calls files path temporary bytes (after, status) =
    IsReplaced calls files temporary bytes
    × (¬ IsSynced calls)
    × (after path ≡ some bytes)
    × (status ≢ none)

-- One of the three outcomes, and no other file is changed.
pub record IsAtomic (calls : Calls) (files : Files) (path temporary bytes : Bytes)
    (m : Files × Option ℕ) : Type 0 where
  pub outcome : Outcome
  pub holds : IsOutcome outcome calls files path temporary bytes m
  pub others : (other : Bytes) → other ≢ path → m.0 other ≡ files other

write_data-le :
    (counts : List (Option ℕ)) (size done : ℕ) {all : ℕ}
    → write_data counts size done ≡ some all
    → size ≤ all
unfolding write_data
write_data-le [] size done {all} h = ground arith
write_data-le (none ∷ counts) size done {all} h = ground arith
write_data-le (some count ∷ counts) size done {all} h =
    ground (arith, write_data-le counts size (done + count) {all = all})

write_data-progress :
    (counts : List (Option ℕ)) (size done : ℕ) {all : ℕ}
    → write_data counts size done ≡ some all
    → size ≤ done + progress counts
unfolding write_data
write_data-progress [] size done {all} h = ground arith
write_data-progress (none ∷ counts) size done {all} h = ground arith
write_data-progress (some count ∷ counts) size done {all} h =
    ground (arith, write_data-progress counts size (done + count) {all = all})

write_data-fails :
    (counts : List (Option ℕ)) (size done : ℕ)
    → write_data counts size done ≡ none
    → done + progress counts < size
unfolding write_data
write_data-fails [] size done h = ground arith
write_data-fails (none ∷ counts) size done h = ground arith
write_data-fails (some count ∷ counts) size done h =
    ground (arith, write_data-fails counts size (done + count))

some_code : {code : ℕ} → some code ≢ none
some_code e = cc

differ : ◌≡◌ {A = Bool} false true → ⊥
differ e = cc

module _ (calls : Calls) (files : Files) (path bytes : Bytes) (temporary : Bytes)
    (ne : temporary ≢ path) (fresh : files temporary ≡ none) where
  -- Without the temporary file everything is as it was.
  unlinked : (other : Bytes) → set_file files temporary none other ≡ files other
  unlinked other = go (str_eq other temporary) refl
    where
      go : (b : Bool) → str_eq other temporary ≡ b → (if b then none else files other) ≡ files other
      go true e = sym (ap files ((str_eq_iff other temporary).0 e) ∙ fresh)
      go false e = refl

  failed :
      (¬ IsReplaced calls files temporary bytes)
      → IsAtomic calls files path temporary bytes (set_file files temporary none, some 7)
  failed why = record {
    outcome = kept;
    holds = (why, unlinked path, some_code);
    others = λ other d. unlinked other;
  }

  replaced : Files
  replaced = set_file (set_file files temporary none) path (some bytes)

  replaced-path : replaced path ≡ some bytes
  unfolding replaced
  replaced-path = rw (str_eq_refl path) refl

  replaced-others : (other : Bytes) → other ≢ path → replaced other ≡ files other
  unfolding replaced
  replaced-others other d = rw ((not_iff _ (str_eq_iff other path)).1 d) (unlinked other)

  late :
      IsReplaced calls files temporary bytes
      → (¬ IsSynced calls)
      → IsAtomic calls files path temporary bytes (replaced, some 7)
  late works why = record {
    outcome = unsynced;
    holds = (works, why, replaced-path, some_code);
    others = replaced-others;
  }

  done :
      IsReplaced calls files temporary bytes
      → IsSynced calls
      → IsAtomic calls files path temporary bytes (replaced, none)
  done works synced = record {
    outcome = written;
    holds = (works, synced, replaced-path, refl);
    others = replaced-others;
  }

  parent_synced :
      length path < 4096
      → IsReplaced calls files temporary bytes
      → IsAtomic calls files path temporary bytes (sync_parent calls replaced path)
  parent_synced short works =
      go (leb 4096 (length path)) (ground arith) calls.opens_directory calls.syncs_directory
        calls.closes_directory refl refl refl
    where
      go :
          (a : Bool)
          → a ≡ false
          → (b c d : Bool) → calls.opens_directory ≡ b
          → calls.syncs_directory ≡ c
          → calls.closes_directory ≡ d
          → IsAtomic calls files path temporary bytes (
              if◌then◌else◌ {A = Files × Option ℕ} a
                (replaced, some 125)
                (if b && (c && d) then (replaced, none) else (replaced, some 7)))
      go true e b c d p q r = absurd (clash e)
        where
          clash : ◌≡◌ {A = Bool} true false → ⊥
          clash e' = cc
      go false e false c d p q r = late works (λ s. differ (sym p ∙ s.0))
      go false e true false d p q r = late works (λ s. differ (sym q ∙ s.1))
      go false e true true false p q r = late works (λ s. differ (sym r ∙ s.2))
      go false e true true true p q r = done works (p, q, r)

  replace-IsAtomic :
      length path < 4096
      → calls.creates ≡ true
      → length bytes ≤ progress calls.counts
      → IsAtomic calls files path temporary bytes (replace calls files temporary path bytes)
  unfolding replaced
  replace-IsAtomic short created stored = go calls.syncs calls.closes calls.renames refl refl refl
    where
      go :
          (a b c : Bool)
          → calls.syncs ≡ a
          → calls.closes ≡ b
          → calls.renames ≡ c
          → IsAtomic calls files path temporary bytes (
              if◌then◌else◌ {A = Files × Option ℕ}
                (not a || not (b && c))
                (set_file files temporary none, some 7)
                (sync_parent calls replaced path))
      go false b c p q r = failed (λ w. differ (sym p ∙ w.syncs))
      go true false c p q r = failed (λ w. differ (sym q ∙ w.closes))
      go true true false p q r = failed (λ w. differ (sym r ∙ w.renames))
      go true true true p q r = parent_synced short (record {
        creates = created;
        new = fresh;
        stores = stored;
        syncs = p;
        closes = q;
        renames = r;
      })

  write_data-IsAtomic :
      length path < 4096
      → calls.creates ≡ true
      → IsAtomic calls files path temporary bytes
          (elim (write_data calls.counts (length bytes) 0) as (λ _. Files × Option ℕ) [
            | none ↦ (set_file files temporary none, some 7)
            | some all ↦ replace calls files temporary path (take all bytes)
          ])
  write_data-IsAtomic short created = go (write_data calls.counts (length bytes) 0) refl
    where
      go :
          (o : Option ℕ)
          → write_data calls.counts (length bytes) 0 ≡ o
          → IsAtomic calls files path temporary bytes (elim o as (λ _. Files × Option ℕ) [
            | none ↦ (set_file files temporary none, some 7)
            | some all ↦ replace calls files temporary path (take all bytes)
          ])
      go none e =
          let missing = write_data-fails calls.counts (length bytes) 0 e in
          failed (λ w. let stores = w.stores in omega arith)
      go (some all) e =
          rw (take_all all bytes (write_data-le calls.counts (length bytes) 0 {all = all} e)) (
            replace-IsAtomic short created
              (omega (arith, write_data-progress calls.counts (length bytes) 0 {all = all} e)))

-- Where the temporary file is new and is created, all of the data is written, and sync, close and rename
-- work, mc_write_atomic replaces the file by all of the data, and returns 0 exactly where the parent
-- directory is then opened, synced and closed, too. Where one of the calls before fails, it fails and
-- leaves the file as it was. Every other file, the temporary one included, is as it was. The temporary
-- name is short enough not to be cut.
pub write_atomic-IsAtomic :
    (calls : Calls) (files : Files) (path bytes : Bytes)
    → length path + 5 + length calls.pid < 4096
    → IsAtomic calls files path
        (temporary_name path calls.pid)
        bytes
        (write_atomic calls files path bytes)
unfolding write_atomic
write_atomic-IsAtomic calls files path bytes short =
    created calls.creates (files (temporary_name path calls.pid)) refl refl
  where
    whole : temporary_name path calls.pid ≡ path ++ (codes ".tmp." ++ calls.pid)
    whole =
        take_all 4095 (path ++ (codes ".tmp." ++ calls.pid))
          (omega (arith, length-append path (codes ".tmp." ++ calls.pid)))

    differs : temporary_name path calls.pid ≢ path
    differs e =
        let same : length (path ++ (codes ".tmp." ++ calls.pid)) ≡ length path =
          ap length (sym whole ∙ e) in
        omega (arith, length-append path (codes ".tmp." ++ calls.pid), same)

    untouched :
        (¬ IsReplaced calls files (temporary_name path calls.pid) bytes)
        → IsAtomic calls files path (temporary_name path calls.pid) bytes (files, some 7)
    untouched why = record {
      outcome = kept;
      holds = (why, refl, some_code);
      others = λ other d. refl;
    }

    created :
        (b : Bool) (o : Option Bytes)
        → calls.creates ≡ b
        → files (temporary_name path calls.pid) ≡ o
        → IsAtomic calls files path (temporary_name path calls.pid) bytes (
            if not b || is_some o
            then (files, some 7)
            else (elim (write_data calls.counts (length bytes) 0) as (λ _. Files × Option ℕ) [
              | none ↦ (set_file files (temporary_name path calls.pid) none, some 7)
              | some all ↦ replace calls files (temporary_name path calls.pid) path (take all bytes)
            ]))
    created false o p e = untouched (λ w. differ (sym p ∙ w.creates))
    created true (some content) p e = untouched (λ w. absent content (sym e ∙ w.new))
      where
        absent : (content : Bytes) → some content ≡ none → ⊥
        absent content e' = cc
    created true none p e =
        write_data-IsAtomic calls files path bytes (temporary_name path calls.pid) differs e
          (omega arith) p

-- ===== src/Tests/Fs.antt =====
-- Files that are replaced, and one that is kept where a write fails.
use minicontainer.Base.{
  ◌≡◌, refl, true, none, some, [], ◌∷◌, arith, Bytes, codes, if◌then◌else◌, str_eq,
}
use minicontainer.Fs.Write.{Files, Calls, write_data, write_atomic, temporary_name}
use minicontainer.Fs.Atomic.{IsAtomic, write_atomic-IsAtomic}

abbrev state_path : Bytes
state_path = codes "/var/lib/minicontainer/state.json"

abbrev old_files : Files
old_files path = if str_eq path state_path then some (codes "old") else none

abbrev calls : Calls
calls = record {
  pid = codes "4711";
  creates = true;
  counts = some 2 ∷ some 1 ∷ [];
  syncs = true;
  closes = true;
  renames = true;
  opens_directory = true;
  syncs_directory = true;
  closes_directory = true;
}

write_atomic-IsAtomic_example :
    IsAtomic calls old_files state_path
      (temporary_name state_path (codes "4711"))
      (codes "new")
      (write_atomic calls old_files state_path (codes "new"))
write_atomic-IsAtomic_example =
    write_atomic-IsAtomic calls old_files state_path (codes "new") (omega arith)

replaced : (write_atomic calls old_files state_path (codes "new")).0 state_path ≡ some (codes "new")
unfolding write_atomic write_data
replaced = refl

broken :
    (write_atomic
        (record calls { counts = some 2 ∷ none ∷ [] })
        old_files
        state_path
        (codes "new")).0
      state_path
    ≡ some (codes "old")
unfolding write_atomic write_data
broken = refl

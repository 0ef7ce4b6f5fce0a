-- ===== src/Log/Pump.antt =====
-- runtime/shim_main.c: write_all, rotate_log and log_pump. What the system calls return is given by
-- lists of events; the loop of the pump ends with them, where read returns 0.
use minicontainer.Base.{
  ℕ, ◌+◌, ◌*◌, Bool, true, false, not, ◌&&◌, Option, none, some, List, [], ◌∷◌, ◌++◌, Bytes, length,
  ltb, if◌then◌else◌, take, drop,
}

-- One return of write: a number of bytes, EINTR, or another error.
pub data Write : Type 0 where
  wrote : ℕ → Write
  interrupted failed : Write

-- The file behind the bytes that are there, and whether the call returns 0. After the listed
-- returns, one more call of write takes all that is left.
unfoldable pub write_all : List Write → Bytes → Bytes → Bytes × Bool
write_all [] buffer file = (file ++ buffer, true)
write_all (wrote n ∷ writes) buffer file = write_all writes (drop n buffer) (file ++ take n buffer)
write_all (interrupted ∷ writes) buffer file = write_all writes buffer file
write_all (failed ∷ writes) buffer file = (file, false)

-- container.log and its rotated files; `none` where there is no such file.
pub record Files : Type 0 where
  pub current : Option Bytes
  pub first : Option Bytes
  pub second : Option Bytes
  pub third : Option Bytes

-- Which renames fail, with an error other than ENOENT, and whether the final open fails.
pub record Faults : Type 0 where
  pub rename_second : Bool
  pub rename_first : Bool
  pub rename_current : Bool
  pub reopen : Bool

-- rename(older, newer): the target is replaced where the source exists, and ENOENT is no failure.
abbrev rename : Bool → Option Bytes → Option Bytes → Option Bytes × Option Bytes × Bool
rename fault none newer = (none, newer, true)
rename fault (some text) newer =
    if fault then (some text, newer, false) else (none, some text, true)

-- MC_LOG_MAX_FILES is 3. The oldest file is removed, the others move up, and the current file is
-- created anew; `false` is a return of -1.
unfoldable pub rotate_log : Faults → Files → Files × Bool
rotate_log faults files =
    let (second, third, moved_second) = rename faults.rename_second files.second none in
    let (first, second', moved_first) = rename faults.rename_first files.first second in
    let (current, first', moved_current) = rename faults.rename_current files.current first in
    if not moved_second
    then (record files { second = second; third = third }, false)
    else if not moved_first
    then (record files { first = first; second = second'; third = third }, false)
    else let moved : Files = record {
      current = current;
      first = first';
      second = second';
      third = third;
    } in
      if not moved_current
      then (moved, false)
      else if faults.reopen
      then (moved, false)
      else (record moved { current = some [] }, true)

-- One return of read, with what the calls after it return: a chunk, EINTR, or another error.
pub data Read : Type 0 where
  chunk : (buffer : Bytes) → Faults → List Write → Read
  interrupted failed : Read

-- MC_LOG_MAX_SIZE
abbrev pub log_max_size : ℕ
log_max_size = 1024 * 1024

-- sizeof(buffer)
abbrev pub buffer_size : ℕ
buffer_size = 16384

abbrev pub text_of : Option Bytes → Bytes
text_of none = []
text_of (some text) = text

-- The test before a chunk is written: the files and the size after it, and whether there is an
-- output to write to.
unfoldable pub make_room : ℕ → ℕ → Faults → Files → Files × ℕ × Bool
make_room size count faults files =
    if ltb 0 size && ltb log_max_size (size + count)
    then (let (rotated, opened) = rotate_log faults files in (rotated, 0, opened))
    else (files, size, true)

-- The chunk is written behind the current file.
unfoldable pub write_chunk : Bytes → List Write → Files → Files × Bool
write_chunk buffer writes files =
    let (text, complete) = write_all writes buffer (text_of files.current) in
    (record files { current = some text }, complete)

-- The files at the end, and whether the pump returns 0.
unfoldable pub log_pump : List Read → Files → ℕ → Files × Bool
log_pump [] files size = (files, true)
log_pump (interrupted ∷ reads) files size = log_pump reads files size
log_pump (failed ∷ reads) files size = (files, false)
log_pump (chunk buffer faults writes ∷ reads) files size =
    let (ready, room, opened) = make_room size (length buffer) faults files in
    let (after, complete) = write_chunk buffer writes ready in
    let rest = log_pump reads after (room + length buffer) in
    if not opened then (ready, false) else if not complete then (after, false) else rest

-- ===== src/Log/Bound.antt =====
-- The bound on the size of the logs, and what they hold.
use minicontainer.Base.{
  ℕ, ◌+◌, ◌≤◌, ◌≡◌, inl, inr, refl, sym, ap, ◌∙◌, Bool, true, false, not, ◌&&◌, some, List, [], ◌∷◌,
  ◌++◌, arith, Bytes, length, All, ltb, if◌then◌else◌, Bool-cases, take, drop, length-append,
  append_assoc, take-append-drop, append-nil,
}
use minicontainer.Log.Pump.{
  Write, wrote, write_all, Files, Faults, rotate_log, Read, chunk, log_max_size, buffer_size,
  text_of, make_room, log_pump, write_chunk,
}

-- A call that returns 0 has appended the whole buffer, whatever the calls of write returned.
pub write_all-append :
    (writes : List Write) (buffer file : Bytes)
    → (write_all writes buffer file).1 ≡ true
    → (write_all writes buffer file).0 ≡ file ++ buffer
unfolding write_all
write_all-append [] buffer file h = refl
write_all-append (wrote n ∷ writes) buffer file h =
    write_all-append writes (drop n buffer) (file ++ take n buffer) h
    ∙ (append_assoc file (take n buffer) (drop n buffer)
        ∙ ap (λ t. file ++ t) (take-append-drop n buffer))
write_all-append (Write.interrupted ∷ writes) buffer file h = write_all-append writes buffer file h
write_all-append (Write.failed ∷ writes) buffer file h = cc

-- Every file of a log is within the limit.
pub record IsBounded (files : Files) : Type 0 where
  pub current : length (text_of files.current) ≤ log_max_size
  pub first : length (text_of files.first) ≤ log_max_size
  pub second : length (text_of files.second) ≤ log_max_size
  pub third : length (text_of files.third) ≤ log_max_size

-- What the logs hold, from the oldest byte on.
abbrev pub contents : Files → Bytes
contents files =
    text_of files.third ++ (text_of files.second ++ (text_of files.first ++ text_of files.current))

rotate_log-IsBounded :
    (faults : Faults) (files : Files) → IsBounded files → IsBounded (rotate_log faults files).0
unfolding rotate_log
rotate_log-IsBounded faults files v = ground arith

-- A rotation that succeeds leaves an empty current file, and drops the oldest file alone.
rotate_log-contents :
    (faults : Faults) (files : Files)
    → (rotate_log faults files).1 ≡ true
    → ((rotate_log faults files).0.current ≡ some [])
      × (contents files ≡ text_of files.third ++ contents (rotate_log faults files).0)
unfolding rotate_log
rotate_log-contents faults files h = ground (
  arith,
  append-nil (text_of files.current),
  append-nil (text_of files.first ++ text_of files.current),
)

length-write_all :
    (writes : List Write) (buffer file : Bytes)
    → length (write_all writes buffer file).0 ≤ length file + length buffer
unfolding write_all
length-write_all [] buffer file = omega (arith, length-append file buffer)
length-write_all (wrote n ∷ writes) buffer file = omega (
  arith,
  length-write_all writes (drop n buffer) (file ++ take n buffer),
  length-append file (take n buffer),
  length-append (take n buffer) (drop n buffer),
  ap (λ (t : Bytes). length t) (take-append-drop n buffer),
)
length-write_all (Write.interrupted ∷ writes) buffer file = length-write_all writes buffer file
length-write_all (Write.failed ∷ writes) buffer file = omega arith

make_room-IsBounded :
    (size count : ℕ) (faults : Faults) (files : Files)
    → IsBounded files
    → IsBounded (make_room size count faults files).0
unfolding make_room
make_room-IsBounded size count faults files v = ground (arith, rotate_log-IsBounded faults files v)

-- Where there is an output, the size is that of the current file, and the chunk fits.
make_room-fits :
    (size count : ℕ) (faults : Faults) (files : Files)
    → size ≡ length (text_of files.current)
    → count ≤ buffer_size
    → (make_room size count faults files).2 ≡ true
    → ((make_room size count faults files).1
        ≡ length (text_of (make_room size count faults files).0.current))
      × ((make_room size count faults files).1 + count ≤ log_max_size)
unfolding make_room
make_room-fits size count faults files e small h =
    ground
      (arith, λ (p : (rotate_log faults files).1 ≡ true). (rotate_log-contents faults files p).0)

-- What a suffix leaves out.
abbrev pub IsSuffix : Bytes → Bytes → Type 0
IsSuffix tail whole = (front : Bytes) × (whole ≡ front ++ tail)

-- The bytes that read returns, in order.
abbrev pub input : List Read → Bytes
input [] = []
input (chunk buffer faults writes ∷ reads) = buffer ++ input reads
input (Read.interrupted ∷ reads) = input reads
input (Read.failed ∷ reads) = input reads

-- Each call of read fills at most the buffer.
abbrev pub Fits : Read → Type 0
Fits (chunk buffer faults writes) = length buffer ≤ buffer_size
Fits Read.interrupted = Unit
Fits Read.failed = Unit

write_chunk-IsBounded :
    (buffer : Bytes) (writes : List Write) (files : Files)
    → length (text_of files.current) + length buffer ≤ log_max_size
    → IsBounded files
    → IsBounded (write_chunk buffer writes files).0
unfolding write_chunk
write_chunk-IsBounded buffer writes files fits v =
    ground (arith, length-write_all writes buffer (text_of files.current))

write_chunk-current :
    (buffer : Bytes) (writes : List Write) (files : Files)
    → (write_chunk buffer writes files).1 ≡ true
    → (length (text_of (write_chunk buffer writes files).0.current)
        ≡ length (text_of files.current) + length buffer)
      × (contents (write_chunk buffer writes files).0 ≡ contents files ++ buffer)
unfolding write_chunk
write_chunk-current buffer writes files h =
    let e = write_all-append writes buffer (text_of files.current) h in
    (rw e (length-append (text_of files.current) buffer), rw e (simp append_assoc))

-- Started with the size of the current file, and with every file within 1 MiB, the pump keeps every
-- file within 1 MiB, the limit of the code, whatever read, write, rename and open return.
pub log_pump-IsBounded :
    (reads : List Read) (files : Files) (size : ℕ)
    → All Fits reads
    → size ≡ length (text_of files.current)
    → IsBounded files
    → IsBounded (log_pump reads files size).0
unfolding log_pump
log_pump-IsBounded [] files size fits e v = v
log_pump-IsBounded (Read.interrupted ∷ reads) files size fits e v =
    log_pump-IsBounded reads files size fits.1 e v
log_pump-IsBounded (Read.failed ∷ reads) files size fits e v = v
log_pump-IsBounded (chunk buffer faults writes ∷ reads) files size fits e v =
    go (make_room size (length buffer) faults files)
      (make_room-IsBounded size (length buffer) faults files v)
      (make_room-fits size (length buffer) faults files e fits.0)
      (λ after room e' v'. log_pump-IsBounded reads after room fits.1 e' v')
  where
    go :
        (r : Files × ℕ × Bool)
        → IsBounded r.0
        → (r.2 ≡ true → (r.1 ≡ length (text_of r.0.current)) × (r.1 + length buffer ≤ log_max_size))
        → ((after : Files) (room : ℕ)
            → room ≡ length (text_of after.current)
            → IsBounded after
            → IsBounded (log_pump reads after room).0)
        → IsBounded
            (let (after, complete) = write_chunk buffer writes r.0 in
              if not r.2
              then (r.0, false)
              else if not complete
              then (after, false)
              else log_pump reads after (r.1 + length buffer)).0
    go (ready, room, false) v' room_fits ih = v'
    go (ready, room, true) v' room_fits ih =
        let (same, room') = room_fits refl in
        let bounded = write_chunk-IsBounded buffer writes ready (omega arith) v' in
        elim (Bool-cases (write_chunk buffer writes ready).1) [
          | inl c ↦ rw c (
              ih (write_chunk buffer writes ready).0 (room + length buffer)
                (omega (arith, (write_chunk-current buffer writes ready c).0)) bounded)
          | inr c ↦ rw c bounded
        ]

make_room-contents :
    (size count : ℕ) (faults : Faults) (files : Files)
    → (make_room size count faults files).2 ≡ true
    → IsSuffix (contents (make_room size count faults files).0) (contents files)
unfolding make_room
make_room-contents size count faults files h =
    elim (Bool-cases (ltb 0 size && ltb log_max_size (size + count))) [
      | inl full ↦
          rw full (text_of files.third, (rotate_log-contents faults files (rw full at h)).1)
      | inr room ↦ rw room ([], refl)
    ]

IsSuffix-trans : (a b c : Bytes) → IsSuffix a b → IsSuffix b c → IsSuffix a c
IsSuffix-trans a b c (f, e) (g, d) = (g ++ f, d ∙ (ap (λ t. g ++ t) e ∙ sym (append_assoc g f a)))

IsSuffix-append : (a b s : Bytes) → IsSuffix a b → IsSuffix (a ++ s) (b ++ s)
IsSuffix-append a b s (f, e) = (f, ap (λ t. t ++ s) e ∙ append_assoc f a s)

-- Where the pump returns 0, the log files, read from the oldest on, are a suffix of what they held
-- before followed by everything that was read: bytes are lost only at the old end, by rotation.
pub log_pump-contents :
    (reads : List Read) (files : Files) (size : ℕ)
    → (log_pump reads files size).1 ≡ true
    → IsSuffix (contents (log_pump reads files size).0) (contents files ++ input reads)
unfolding log_pump
log_pump-contents [] files size h = ([], append-nil (contents files))
log_pump-contents (Read.interrupted ∷ reads) files size h = log_pump-contents reads files size h
log_pump-contents (Read.failed ∷ reads) files size h = cc
log_pump-contents (chunk buffer faults writes ∷ reads) files size h =
    go (make_room size (length buffer) faults files)
      (make_room-contents size (length buffer) faults files)
      (λ after room. log_pump-contents reads after room) h
  where
    next : Files × ℕ × Bool → Files × Bool
    next r =
        let (after, complete) = write_chunk buffer writes r.0 in
        if not r.2
        then (r.0, false)
        else if not complete
        then (after, false)
        else log_pump reads after (r.1 + length buffer)

    go :
        (r : Files × ℕ × Bool)
        → (r.2 ≡ true → IsSuffix (contents r.0) (contents files))
        → ((after : Files) (room : ℕ)
            → (log_pump reads after room).1 ≡ true
            → IsSuffix (contents (log_pump reads after room).0) (contents after ++ input reads))
        → (next r).1 ≡ true
        → IsSuffix (contents (next r).0) (contents files ++ (buffer ++ input reads))
    go (ready, room, false) kept ih h' = cc
    go (ready, room, true) kept ih h' = elim (Bool-cases (write_chunk buffer writes ready).1) [
      | inl c ↦
          let after = (write_chunk buffer writes ready).0 in
          let later : IsSuffix (contents (log_pump reads after (room + length buffer)).0)
              (contents after ++ input reads) =
            ih after (room + length buffer) (rw c at h') in
          rw (c, ← append_assoc (contents files) buffer (input reads))
            (IsSuffix-trans _ _ _ later (
              IsSuffix-append _ _ (input reads) (
                rw (write_chunk-current buffer writes ready c).1
                  (IsSuffix-append _ _ buffer (kept refl)))))
      | inr c ↦ absurd (clash (rw c at h'))
    ]
      where
        clash : ◌≡◌ {A = Bool} false true → ⊥
        clash e = cc

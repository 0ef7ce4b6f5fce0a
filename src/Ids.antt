-- ===== src/Ids.antt =====
-- util/id.c: the identifier of a container. util/subid.c: the start of the range of subordinate ids.
use minicontainer.Base.{
  ℕ, zero, suc, ◌+◌, ◌-◌, ◌*◌, ◌/◌, ◌%◌, ◌^◌, ◌≤◌, ◌<◌, ◌≡◌, inl, inr, refl, not, ◌&&◌, ◌||◌,
  Option, none, some, List, [], ◌∷◌, ◌++◌, arith, Bytes, codes, length, ◌==◌, leb, ltb,
  if◌then◌else◌, ◌>>=◌, Bool-cases, take, str_eq, length-append, >>=-eq-some, subst,
}
use minicontainer.Base.Number.{strtoull}
use minicontainer.Resource.{is_nil}
use minicontainer.Network.{scan_run, scan_literal}

-- What a call of getrandom returns: EINTR, another error, or bytes.
pub data Draw : Type 0 where
  interrupted failed : Draw
  drawn : Bytes → Draw

-- The loop that fills the 16 bytes; `none` where a call fails, or the calls end too early.
unfoldable pub fill : List Draw → Bytes → Option Bytes
fill [] received = if ltb (length received) 16 then none else some received
fill (interrupted ∷ draws) received =
    let rest = fill draws received in if ltb (length received) 16 then rest else some received
fill (failed ∷ draws) received = if ltb (length received) 16 then none else some received
fill (drawn bytes ∷ draws) received =
    let rest = fill draws (received ++ take (16 - length received) bytes) in
    if ltb (length received) 16 then rest else some received

abbrev pub hex_digit : ℕ → ℕ
hex_digit n = if ltb n 10 then 48 + n else 87 + n

-- "%02x" for each byte.
abbrev pub hex : Bytes → Bytes
hex [] = []
hex (byte ∷ bytes) = hex_digit (byte / 16) ∷ hex_digit (byte % 16) ∷ hex bytes

unfoldable pub generate_id : List Draw → Option Bytes
generate_id draws = fill draws [] >>= λ bytes. some (hex bytes)

-- UINT32_MAX - 65535U
abbrev pub start_max : ℕ
start_max = 4294901760

-- The number that strtoul reads, and what follows; `none` where it reads none.
abbrev scan_long : Bytes → Option (ℕ × Bytes)
scan_long s = let p = strtoull s in if p.moved then some (p.value, p.rest) else none

abbrev pub override_start : Bytes → Option ℕ
override_start value =
    let p = strtoull value in
    if not p.moved || not (is_nil p.rest) || ltb start_max p.value then none else some p.value

abbrev pub accept_range : Bytes → ℕ → ℕ → Option ℕ
accept_range owner first count =
    if str_eq owner (codes "minicontainer") && leb 65536 count && leb first start_max
    then some first
    else none

-- One round of the loop: `none` where the line is passed over.
unfoldable pub line_start : Bytes → Option ℕ
line_start line = scan_run (λ c. not (c == b':')) 127 line >>= λ (owner, r1).
    scan_literal b':' r1 >>= λ r2. scan_long r2 >>= λ (first, r3).
    scan_literal b':' r3 >>= λ r4. scan_long r4 >>= λ last. accept_range owner first last.0

unfoldable pub lines_start : List Bytes → Option ℕ
lines_start [] = none
lines_start (line ∷ lines) = elim (line_start line) [ some n ↦ some n | none ↦ lines_start lines ]

-- The variable of the environment, and the lines that fgets returns of the file.
unfoldable pub read_start : Option Bytes → Option (List Bytes) → Option ℕ
unfolding lines_start
read_start (some (c ∷ value)) file = override_start (c ∷ value)
read_start (some []) file = file >>= lines_start
read_start none file = file >>= lines_start

-- mc_subid_range, with the variable and the file of each of the two ranges.
unfoldable pub subid_range :
    Option Bytes → Option (List Bytes) → Option Bytes → Option (List Bytes) → Option (ℕ × ℕ)
subid_range user_override user_file group_override group_file =
    read_start user_override user_file >>= λ user.
    read_start group_override group_file >>= λ group. some (user, group)

pub length-hex : (bytes : Bytes) → length (hex bytes) ≡ length bytes * 2
length-hex [] = refl
length-hex (byte ∷ bytes) = omega (arith, length-hex bytes)

length-take_le : (n : ℕ) (bytes : Bytes) → length (take n bytes) ≤ n
length-take_le zero bytes = omega arith
length-take_le (suc n) [] = omega arith
length-take_le (suc n) (b ∷ bytes) = omega (arith, length-take_le n bytes)

some_bytes_eq : {a b : Bytes} → some a ≡ some b → a ≡ b
some_bytes_eq e = cc

full :
    (received : Bytes) (rest : Option Bytes) {out : Bytes}
    → length received ≤ 16
    → (rest ≡ some out → length out ≡ 16)
    → (if ltb (length received) 16 then rest else some received) ≡ some out
    → length out ≡ 16
full received rest {out} h later e = elim (Bool-cases (ltb (length received) 16)) [
  | inl less ↦ later (ground arith)
  | inr enough ↦
      let same : some received ≡ some out = ground arith in
      subst (λ b. length b ≡ 16) (some_bytes_eq same) (ground arith)
]

length-fill :
    (draws : List Draw) (received : Bytes) {out : Bytes}
    → length received ≤ 16
    → fill draws received ≡ some out
    → length out ≡ 16
unfolding fill
length-fill [] received {out} h e = full received none {out = out} h (λ q. cc) e
length-fill (interrupted ∷ draws) received {out} h e =
    full received (fill draws received) {out = out} h (length-fill draws received {out = out} h) e
length-fill (failed ∷ draws) received {out} h e = full received none {out = out} h (λ q. cc) e
length-fill (drawn bytes ∷ draws) received {out} h e =
    let next = received ++ take (16 - length received) bytes in
    full received (fill draws next) {out = out} h
      (length-fill draws next {out = out} (
        omega (
          arith,
          length-append received (take (16 - length received) bytes),
          length-take_le (16 - length received) bytes,
        )))
      e

-- An identifier that is generated has 32 characters, which is the length that the registry asks for.
pub length-generate_id :
    (draws : List Draw) {id : Bytes} → generate_id draws ≡ some id → length id ≡ 32
unfolding generate_id
length-generate_id draws {id} h =
    let (bytes, filled, printed) = >>=-eq-some (fill draws []) _ {b = id} h in
    subst (λ t. length t ≡ 32) (some_bytes_eq printed)
      (omega (arith, length-hex bytes, length-fill draws [] {out = bytes} (omega arith) filled))

lines_start-le : (lines : List Bytes) {n : ℕ} → lines_start lines ≡ some n → n ≤ start_max
unfolding lines_start line_start
lines_start-le [] h = cc
lines_start-le (line ∷ lines) {n} h =
    go (line_start line) refl (λ e. lines_start-le lines {n = n} e) h
  where
    accepted : {m : ℕ} → line_start line ≡ some m → m ≤ start_max
    accepted {m} e =
        let ((owner, r1), e1, h1) =
          >>=-eq-some (scan_run (λ c. not (c == b':')) 127 line) _ {b = m} e in
        let (r2, e2, h2) = >>=-eq-some (scan_literal b':' r1) _ {b = m} h1 in
        let ((first, r3), e3, h3) = >>=-eq-some (scan_long r2) _ {b = m} h2 in
        let (r4, e4, h4) = >>=-eq-some (scan_literal b':' r3) _ {b = m} h3 in
        let (last, e5, h5) = >>=-eq-some (scan_long r4) _ {b = m} h4 in ground arith

    some_eq : {a b : ℕ} → some a ≡ some b → a ≡ b
    some_eq e = cc

    go :
        (o : Option ℕ)
        → line_start line ≡ o
        → (lines_start lines ≡ some n → n ≤ start_max)
        → (elim o as (λ _. Option ℕ) [ some m ↦ some m | none ↦ lines_start lines ]) ≡ some n
        → n ≤ start_max
    go none q later e = later e
    go (some m) q later e = subst (λ k. k ≤ start_max) (some_eq e) (accepted {m = m} q)

-- The range of 65536 subordinate ids that starts at an accepted number stays within 32 bits.
pub read_start-le :
    (override : Option Bytes) (file : Option (List Bytes)) {start : ℕ}
    → read_start override file ≡ some start
    → start + 65535 < 2 ^ 32
unfolding read_start
read_start-le (some (c ∷ value)) file {start} h = ground arith
read_start-le (some []) file {start} h =
    let (lines, opened, found) = >>=-eq-some file lines_start {b = start} h in
    omega (arith, lines_start-le lines {n = start} found)
read_start-le none file {start} h =
    let (lines, opened, found) = >>=-eq-some file lines_start {b = start} h in
    omega (arith, lines_start-le lines {n = start} found)

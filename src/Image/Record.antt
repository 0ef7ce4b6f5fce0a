-- ===== src/Image/Record.antt =====
-- image/import.c: the record of a name holds the digest that was written.
use minicontainer.Base.{
  ℕ, ◌/◌, ◌%◌, ◌≤◌, ◌<◌, ◌≡◌, refl, ap, ◌∙◌, Bool, true, false, [], ◌∷◌, ◌++◌, arith, Bytes, codes,
  length, All, ◌==◌, if◌then◌else◌, take, take_all, length-append, subst,
}
use minicontainer.Ids.{hex, hex_digit}
use minicontainer.State.Registry.{Result, ok, err}
use minicontainer.Image.Store.{
  Images, archive_digest, digest_record, first_line, resolve_digest, resolve_record,
}

-- No character that ends a line, and no NUL.
abbrev pub IsLine : Bytes → Type 0
IsLine s = All (λ c. 13 < c) s

first_line-append : (s after : Bytes) → IsLine s → first_line (s ++ (10 ∷ after)) ≡ s
first_line-append [] after h = refl
first_line-append (c ∷ s) after h = ground (arith, first_line-append s after h.1)

hex-IsLine : (bytes : Bytes) → IsLine (hex bytes)
hex-IsLine [] = tt
hex-IsLine (byte ∷ bytes) = (digit (byte / 16), (digit (byte % 16), hex-IsLine bytes))
  where
    digit : (n : ℕ) → 13 < hex_digit n
    digit n = ground arith

pub archive_digest-IsLine :
    (r : Result Bytes) (digest : Bytes) → archive_digest r ≡ ok digest → IsLine digest
unfolding archive_digest
archive_digest-IsLine (err code) digest e = cc
archive_digest-IsLine (ok bytes) digest e = go (length bytes == 32) e
  where
    ok-injective : (a : Bytes) → ◌≡◌ {A = Result Bytes} (ok a) (ok digest) → a ≡ digest
    ok-injective a q = cc

    go : (b : Bool) → (if b then ok (hex bytes) else err 7) ≡ ok digest → IsLine digest
    go true q = subst IsLine (ok-injective (hex bytes) q) (hex-IsLine bytes)
    go false q = cc

-- The record of a digest is read back.
first_line-digest_record :
    (digest : Bytes)
    → length digest ≡ 64
    → IsLine digest
    → first_line (take 79 (digest_record digest)) ≡ codes "sha256:" ++ digest
first_line-digest_record digest size line =
    let total = length-append digest (codes "\n") in
    let short : length (codes "sha256:" ++ (digest ++ codes "\n")) ≤ 79 =
      omega (arith, size, total) in
    let text = codes "sha256:" ++ (digest ++ codes "\n") in
    ap first_line (ap (take 79) (take_all 79 text short) ∙ take_all 79 text short)
    ∙ first_line-append (codes "sha256:" ++ digest) [] (head line)
  where
    head : IsLine digest → IsLine (codes "sha256:" ++ digest)
    head h = (
      omega arith,
      (omega arith, (omega arith, (omega arith, (omega arith, (omega arith, (omega arith, h)))))),
    )

pub resolve_record-digest_record :
    (images : Images) (state_dir digest : Bytes) (size : ℕ)
    → length digest ≡ 64
    → IsLine digest
    → resolve_record images state_dir size (first_line (take 79 (digest_record digest)))
      ≡ resolve_digest images state_dir size digest
resolve_record-digest_record images state_dir digest size long line =
    ap (resolve_record images state_dir size) (first_line-digest_record digest long line)
    ∙ rw long refl

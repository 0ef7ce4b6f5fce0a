-- ===== src/Security/Capability.antt =====
-- Capability names and numbers.
use minicontainer.Base.{
  ℕ, zero, suc, ◌+◌, ◌<◌, ◌≡◌, ◌⊎◌, inl, inr, refl, sym, ◌∙◌, Bool, true, false, ◌&&◌, Option, none,
  some, List, [], ◌∷◌, ◌++◌, arith, Bytes, codes, length, ◌==◌, Bool-cases, str_eq, str_eq_iff,
  starts_with, get_elem?, starts_with-drop,
}
use minicontainer.Security.{
  capability_names, strip_prefix, find_name, capability_parse, capability_name,
}

abbrev is_number : Option ℕ → ℕ → Bool
is_number none n = false
is_number (some m) n = m == n

-- Each name is read as its index, with and without the prefix.
all_read : List Bytes → ℕ → Bool
all_read [] index = true
all_read (name ∷ names) index =
    is_number (capability_parse name) index
    && is_number (capability_parse (codes "CAP_" ++ name)) index
    && all_read names (index + 1)

names_read : all_read capability_names 0 ≡ true
unfolding all_read capability_parse
names_read = refl

is_number-some : (o : Option ℕ) (n : ℕ) → is_number o n ≡ true → o ≡ some n
is_number-some none n h = cc
is_number-some (some m) n h = ground arith

all_read_at :
    (names : List Bytes) (index k : ℕ) {name : Bytes}
    → all_read names index ≡ true
    → get_elem? names k ≡ some name
    → (capability_parse name ≡ some (index + k))
      × (capability_parse (codes "CAP_" ++ name) ≡ some (index + k))
unfolding all_read
all_read_at [] index k h e = cc
all_read_at (n ∷ names) index zero h e = ground (
  arith,
  is_number-some (capability_parse n) index,
  is_number-some (capability_parse (codes "CAP_" ++ n)) index,
)
all_read_at (n ∷ names) index (suc k) {name} h e =
    ground (arith, all_read_at names (index + 1) k {name = name})

-- The name of a capability number is read back as that number, with or without "CAP_" in front.
pub capability_parse-capability_name :
    (number : ℕ) {name : Bytes}
    → capability_name number ≡ some name
    → (capability_parse name ≡ some number)
      × (capability_parse (codes "CAP_" ++ name) ≡ some number)
unfolding capability_name
capability_parse-capability_name number {name} h =
    let found = all_read_at capability_names 0 number {name = name} names_read h in
    ground (arith, found)

find_name-get_elem? :
    (candidate : Bytes) (names : List Bytes) (index : ℕ) {number : ℕ}
    → find_name candidate names index ≡ some number
    → (k : ℕ) × (number ≡ index + k) × (get_elem? names k ≡ some candidate)
unfolding find_name
find_name-get_elem? candidate [] index h = cc
find_name-get_elem? candidate (name ∷ names) index {number} h =
    elim (Bool-cases (str_eq candidate name)) [
      | inl e ↦ (0, ground arith, ground (arith, (str_eq_iff candidate name).0 e))
      | inr e ↦
          let (k, at, found) =
            find_name-get_elem? candidate names (index + 1) {number = number} (ground arith) in
          (suc k, omega arith, found)
    ]

stripped : (text : Bytes) → (text ≡ strip_prefix text) ⊎ (text ≡ codes "CAP_" ++ strip_prefix text)
stripped text = elim (Bool-cases (starts_with (codes "CAP_") text)) [
  | inl e ↦ inr (starts_with-drop (codes "CAP_") text e ∙ sym (rw e))
  | inr e ↦ inl (rw e)
]

get_elem?-lt :
    (names : List Bytes) (k : ℕ) {name : Bytes} → get_elem? names k ≡ some name → k < length names
get_elem?-lt [] k h = cc
get_elem?-lt (n ∷ names) zero h = omega arith
get_elem?-lt (n ∷ names) (suc k) {name} h = omega (arith, get_elem?-lt names k {name = name} h)

-- A text that is read as a number is the name of that number, with or without "CAP_" in front;
-- so every number that is read has a name, and fits a mask of 64 bits.
pub capability_parse_sound :
    (text : Bytes) {number : ℕ}
    → capability_parse text ≡ some number
    → (name : Bytes) × (capability_name number ≡ some name)
      × ((text ≡ name) ⊎ (text ≡ codes "CAP_" ++ name))
      × (number < 64)
unfolding capability_parse capability_name
capability_parse_sound text {number} h =
    let (k, at, found) =
      find_name-get_elem? (strip_prefix text) capability_names 0 {number = number} h in
    let e : number ≡ k = omega arith in
    (
      strip_prefix text,
      rw e found,
      stripped text,
      omega (arith, get_elem?-lt capability_names k {name = strip_prefix text} found),
    )

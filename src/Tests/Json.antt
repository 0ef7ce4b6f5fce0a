-- ===== src/Tests/Json.antt =====
-- A concrete json-c: documents as trees, with the tree for the text.
use minicontainer.Base.{
  ℕ, refl, Bool, true, false, Option, none, some, List, [], ◌∷◌, Bytes, if◌then◌else◌, str_eq, ap,
  ◌≡◌,
}
use minicontainer.State.Json.{Json, IsJson}

pub data Tree : Type 0 where
  str : Bytes → Tree
  num : ℕ → Tree
  flag : Bool → Tree
  empty : Tree
  member : Bytes → Tree → Tree → Tree
  nothing : Tree
  item : Tree → Tree → Tree

unfoldable pub member_of : Tree → Bytes → Option Tree
member_of (member key v rest) k =
    let later = member_of rest k in if str_eq k key then some v else later
member_of other k = none

abbrev text_of : Tree → Bytes
text_of (str s) = s
text_of other = []

abbrev number_of : Tree → ℕ
number_of (num n) = n
number_of other = 0

abbrev flag_of : Tree → Bool
flag_of (flag b) = b
flag_of other = false

abbrev is_string : Tree → Bool
is_string (str s) = true
is_string other = false

unfoldable pub items_tree : List Tree → Tree
items_tree [] = nothing
items_tree (v ∷ vs) = item v (items_tree vs)

abbrev is_array : Tree → Bool
is_array nothing = true
is_array (item v rest) = true
is_array other = false

unfoldable pub items_of : Tree → List Tree
items_of (item v rest) = v ∷ items_of rest
items_of other = []

is_array-items_tree : (vs : List Tree) → is_array (items_tree vs) ≡ true
unfolding items_tree
is_array-items_tree [] = refl
is_array-items_tree (v ∷ vs) = refl

items_of-items_tree : (vs : List Tree) → items_of (items_tree vs) ≡ vs
unfolding items_tree items_of
items_of-items_tree [] = refl
items_of-items_tree (v ∷ vs) = ap (λ r. v ∷ r) (items_of-items_tree vs)

abbrev pub trees : Json
trees = record {
  Value = Tree;
  Text = Tree;
  parse = some;
  print = λ v. v;
  get = member_of;
  set = λ o k v. member k v o;
  new_object = empty;
  new_string = str;
  new_int = num;
  new_int64 = num;
  new_uint64 = num;
  new_boolean = flag;
  array = items_tree;
  get_string = text_of;
  get_int = number_of;
  get_int64 = number_of;
  get_uint64 = number_of;
  get_boolean = flag_of;
  is_string = is_string;
  is_array = is_array;
  items = items_of;
}

pub trees-IsJson : IsJson trees
unfolding member_of
trees-IsJson = record {
  parse-print = λ v. refl;
  get-set = λ o key v k. refl;
  get-new_object = λ k. refl;
  get_string-new_string = λ s. refl;
  is_string-new_string = λ s. refl;
  get_int-new_int = λ n h. refl;
  get_int64-new_int = λ n h. refl;
  get_int64-new_int64 = λ n h. refl;
  get_uint64-new_uint64 = λ n h. refl;
  get_boolean-new_boolean = λ b. refl;
  is_array-array = is_array-items_tree;
  items-array = items_of-items_tree;
}

-- ===== src/State/Json.antt =====
-- What the program uses of json-c, as a parameter, and what json-c documents of it.
use minicontainer.Base.{
  ℕ, ◌^◌, ◌<◌, ◌≡◌, Bool, true, Option, none, some, List, Bytes, if◌then◌else◌, str_eq,
}

-- A number is held as the 64-bit word that json_object_get_int64 returns, and `get_int` is the 32-bit
-- one. `text` is the content of a file, `parse` what json_object_from_file makes of it (`none` for
-- NULL), `print` what json_object_to_json_string_ext writes, `set` json_object_object_add and `get`
-- json_object_object_get_ex. `array` is what json_object_new_array and json_object_array_add for each
-- of the items make.
pub record Json : Type 1 where
  pub Value : Type 0
  pub Text : Type 0
  pub parse : Text → Option Value
  pub print : Value → Text
  pub get : Value → Bytes → Option Value
  pub set : Value → Bytes → Value → Value
  pub new_object : Value
  pub new_string : Bytes → Value
  pub new_int : ℕ → Value
  pub new_int64 : ℕ → Value
  pub new_uint64 : ℕ → Value
  pub new_boolean : Bool → Value
  pub array : List Value → Value
  pub get_string : Value → Bytes
  pub get_int : Value → ℕ
  pub get_int64 : Value → ℕ
  pub get_uint64 : Value → ℕ
  pub get_boolean : Value → Bool
  pub is_string : Value → Bool
  pub is_array : Value → Bool
  pub items : Value → List Value

pub record IsJson (J : Json) : Type 0 where
  pub parse-print : (v : J.Value) → J.parse (J.print v) ≡ some v
  pub get-set :
      (o : J.Value) (key : Bytes) (v : J.Value) (k : Bytes)
      → J.get (J.set o key v) k ≡ (if str_eq k key then some v else J.get o k)
  pub get-new_object : (k : Bytes) → J.get J.new_object k ≡ none
  pub get_string-new_string : (s : Bytes) → J.get_string (J.new_string s) ≡ s
  pub is_string-new_string : (s : Bytes) → J.is_string (J.new_string s) ≡ true
  pub get_int-new_int : (n : ℕ) → n < 2 ^ 31 → J.get_int (J.new_int n) ≡ n
  pub get_int64-new_int : (n : ℕ) → n < 2 ^ 31 → J.get_int64 (J.new_int n) ≡ n
  pub get_int64-new_int64 : (n : ℕ) → n < 2 ^ 63 → J.get_int64 (J.new_int64 n) ≡ n
  pub get_uint64-new_uint64 : (n : ℕ) → n < 2 ^ 64 → J.get_uint64 (J.new_uint64 n) ≡ n
  pub get_boolean-new_boolean : (b : Bool) → J.get_boolean (J.new_boolean b) ≡ b
  pub is_array-array : (vs : List J.Value) → J.is_array (J.array vs) ≡ true
  pub items-array : (vs : List J.Value) → J.items (J.array vs) ≡ vs

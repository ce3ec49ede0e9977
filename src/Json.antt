-- ===== src/Json.antt =====
-- packages/core/src/json.ts: JSON values and their primitive types.
-- A number is an IEEE double, kept as its three fields. A string is a native text, a sequence of
-- Unicode scalar values. The members of an object stand in the order of `Object.keys`.
pub mod Duplicates
pub mod Equal
pub mod Length
pub mod Number
pub mod Pointer
use json_schema_engine.Base.{
  ℕ, zero, suc, ◌≡◌, Bool, true, false, ◌&&◌, Option, none, some, List, [], ◌∷◌, map, String,
  str_eq, if◌then◌else◌,
}

pub record Double : Type 0 where
  pub negative : Bool
  pub exponent : ℕ
  pub fraction : ℕ

mutual
  pub data Json : Type 0 where
    null : Json
    boolean : Bool → Json
    number : Double → Json
    string : String → Json
    array : Items → Json
    object : Members → Json

  pub data Items : Type 0 where
    nil : Items
    cons : Json → Items → Items

  pub data Members : Type 0 where
    end : Members
    member : String → Json → Members → Members

-- The elements of an array, and the `Object.entries` of an object.
abbrev pub elements : Items → List Json
elements nil = []
elements (cons x xs) = x ∷ elements xs

abbrev pub entries : Members → List (String × Json)
entries end = []
entries (member k v ms) = (k, v) ∷ entries ms

pub data JsonType : Type 0 where
  null_type boolean_type number_type integer_type string_type array_type object_type : JsonType

abbrev pub is_object : Json → Bool
is_object (object ms) = true
is_object _ = false

unfoldable pub json_type_of : Json → JsonType
json_type_of null = null_type
json_type_of (array xs) = array_type
json_type_of (boolean b) = boolean_type
json_type_of (number n) = number_type
json_type_of (string s) = string_type
json_type_of (object ms) = object_type

-- `value[name]` behind `Object.hasOwn(value, name)`.
unfoldable pub lookup {ℓ} : {V : Type ℓ} → String → List (String × V) → Option V
lookup k [] = none
lookup k ((j, v) ∷ rest) = if str_eq j k then some v else lookup k rest

abbrev pub is_some {ℓ} : {A : Type ℓ} → Option A → Bool
is_some none = false
is_some (some a) = true

abbrev pub has_own : String → List (String × Json) → Bool
has_own k l = is_some (lookup k l)

abbrev pub keys {ℓ} : {V : Type ℓ} → List (String × V) → List String
keys [] = []
keys ((k, v) ∷ l) = k ∷ keys l

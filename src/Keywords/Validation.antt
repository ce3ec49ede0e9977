-- ===== src/Keywords/Validation.antt =====
-- packages/core/src/keywords/validation.ts: the assertions, and the helpers of messages.ts they test
-- with. `multipleOf` is not here: it scales doubles by a power of ten.
use Prim.Native.String.{◌++◌ as str_append}
use json_schema_engine.Base.{
  ℕ, Bool, true, false, ◌&&◌, ◌||◌, not, List, [], ◌∷◌, String, any, length, if◌then◌else◌, str_eq,
}
use json_schema_engine.Json.{
  Json, null, boolean, number, string, array, object, Double, elements, entries, JsonType,
  json_type_of, null_type, boolean_type, number_type, string_type, array_type, object_type,
  integer_type,
}
use json_schema_engine.Json.Number.{is_nan, number_lt, number_le, is_integer, length_lt, lt_length}
use json_schema_engine.Json.Length.{code_point_length, utf16, codes}
use json_schema_engine.Json.Equal.{json_equal}
use json_schema_engine.Json.Duplicates.{canonical_key, has_duplicate_items}
use json_schema_engine.Cursor.{value}
use json_schema_engine.Engine.State.{Datum}
use json_schema_engine.Engine.Program.{Program, done, compile_regex, KeywordBehavior}
use json_schema_engine.Keywords.Schema.{described, rejecting, behavior, with_array, with_text}

abbrev pub validation_id : String → String
validation_id name = str_append "https://json-schema.org/draft/2020-12/vocab/validation#" name

-- The verdict of a test, with one error where it fails.
abbrev pub asserted : String → Json → Bool → Program Bool
asserted template v passes =
    if passes then done true else rejecting (described template (Datum.custom v ∷ []))

-- `assertion`
abbrev pub assertion : String → (Json → Json → Bool) → KeywordBehavior
assertion name test =
    behavior (validation_id name) (λ v c schema. asserted name v (test v (value c)))

abbrev pub type_name : JsonType → String
type_name null_type = "null"
type_name boolean_type = "boolean"
type_name number_type = "number"
type_name integer_type = "integer"
type_name string_type = "string"
type_name array_type = "array"
type_name object_type = "object"

abbrev is_integral : Json → Bool
is_integral (number d) = is_integer d
is_integral _ = false

-- `typeMatches` and `typeNames`
unfoldable pub type_matches : Json → Json → Bool
unfolding json_type_of is_integer
type_matches (string t) v =
    if str_eq t "integer" then is_integral v else str_eq (type_name (json_type_of v)) t
type_matches _ v = false

abbrev pub type_names : Json → List Json
type_names (array xs) = elements xs
type_names v = v ∷ []

unfoldable pub type_keyword : KeywordBehavior
unfolding type_matches
type_keyword =
    behavior (validation_id "type")
      (λ v c schema. asserted "type" v (any (λ t. type_matches t (value c)) (type_names v)))

unfoldable pub enum_keyword : KeywordBehavior
unfolding json_equal
enum_keyword = behavior (validation_id "enum") (λ v c schema.
    with_array v
      (λ alternatives. asserted "enum" v (any (λ a. json_equal a (value c)) alternatives)))

unfoldable pub const_keyword : KeywordBehavior
unfolding json_equal
const_keyword = assertion "const" (λ v instance. json_equal v instance)

unfoldable pub pattern : KeywordBehavior
pattern = behavior (validation_id "pattern") (λ v c schema. elim (value c) [
  | string s ↦ with_text v (λ p. compile_regex p (λ test. asserted "pattern" v (test s)))
  | null ↦ done true
  | boolean b ↦ done true
  | number d ↦ done true
  | array xs ↦ done true
  | object ms ↦ done true
])

-- A comparison with a keyword value that is a number; another value is outside of the model, where
-- the comparison is false as with NaN.
abbrev pub with_limit : Json → (Double → Bool) → Bool
with_limit (number d) test = test d
with_limit _ test = false

abbrev pub text_length : String → ℕ
text_length s = code_point_length (utf16 (codes s))

-- `n >= limit` and `n <= limit`; both are false where the limit is NaN.
unfoldable pub at_least : ℕ → Json → Bool
unfolding length_lt is_nan
at_least n v = with_limit v (λ d. not (is_nan d) && not (length_lt n d))

unfoldable pub at_most : ℕ → Json → Bool
unfolding lt_length is_nan
at_most n v = with_limit v (λ d. not (is_nan d) && not (lt_length d n))

-- The tests are vacuous on an instance of another type.
abbrev pub on_text : Json → (String → Bool) → Bool
on_text (string s) test = test s
on_text _ test = true

abbrev pub on_number : Json → (Double → Bool) → Bool
on_number (number d) test = test d
on_number _ test = true

abbrev pub on_items : Json → (List Json → Bool) → Bool
on_items (array xs) test = test (elements xs)
on_items _ test = true

abbrev pub on_members : Json → (List (String × Json) → Bool) → Bool
on_members (object ms) test = test (entries ms)
on_members _ test = true

unfoldable pub min_length : KeywordBehavior
unfolding at_least code_point_length utf16
min_length =
    assertion "minLength" (λ v instance. on_text instance (λ s. at_least (text_length s) v))

unfoldable pub max_length : KeywordBehavior
unfolding at_most code_point_length utf16
max_length = assertion "maxLength" (λ v instance. on_text instance (λ s. at_most (text_length s) v))

unfoldable pub minimum : KeywordBehavior
unfolding number_le
minimum =
    assertion "minimum" (λ v instance. on_number instance (λ n. with_limit v (λ d. number_le d n)))

unfoldable pub maximum : KeywordBehavior
unfolding number_le
maximum =
    assertion "maximum" (λ v instance. on_number instance (λ n. with_limit v (λ d. number_le n d)))

unfoldable pub exclusive_minimum : KeywordBehavior
unfolding number_lt
exclusive_minimum =
    assertion "exclusiveMinimum"
      (λ v instance. on_number instance (λ n. with_limit v (λ d. number_lt d n)))

unfoldable pub exclusive_maximum : KeywordBehavior
unfolding number_lt
exclusive_maximum =
    assertion "exclusiveMaximum"
      (λ v instance. on_number instance (λ n. with_limit v (λ d. number_lt n d)))

unfoldable pub min_items : KeywordBehavior
unfolding at_least
min_items = assertion "minItems" (λ v instance. on_items instance (λ xs. at_least (length xs) v))

unfoldable pub max_items : KeywordBehavior
unfolding at_most
max_items = assertion "maxItems" (λ v instance. on_items instance (λ xs. at_most (length xs) v))

unfoldable pub min_properties : KeywordBehavior
unfolding at_least
min_properties =
    assertion "minProperties" (λ v instance. on_members instance (λ ms. at_least (length ms) v))

unfoldable pub max_properties : KeywordBehavior
unfolding at_most
max_properties =
    assertion "maxProperties" (λ v instance. on_members instance (λ ms. at_most (length ms) v))

abbrev is_literal_true : Json → Bool
is_literal_true (boolean b) = b
is_literal_true _ = false

-- `stringify` and `sort` are the language's, as in `canonicalKey`.
module _ (stringify : Json → String) (sort : List String → List String) where
  unfoldable pub unique_items : KeywordBehavior
  unfolding has_duplicate_items canonical_key
  unique_items = assertion "uniqueItems" (λ v instance.
      not (is_literal_true v)
      || on_items instance
          (λ xs. not (has_duplicate_items (canonical_key stringify sort) json_equal xs)))

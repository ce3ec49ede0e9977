-- ===== src/Tests/Document.antt =====
-- A document with the applicators, registered under its dialect: each part is `false` or asks for a
-- text. The registry answers the engine's lookups from the indexes that the registration leaves.
use json_schema_engine.Base.{
  not, Result, ◌&&◌, any, ◌==◌, ℕ, Bool, true, false, none, some, List, [], ◌∷◌, String, ok, err,
  str_eq,
}
use json_schema_engine.Json.{Json, boolean, string, object, array, nil, cons, Members, end, member}
use json_schema_engine.Cursor.{root_cursor, Segment, key, index, SchemaRef}
use json_schema_engine.Engine.State.{no_path, EvalState, initial}
use json_schema_engine.Engine.Program.{KeywordBehavior, DialectKeyword, Environment, Registry}
use json_schema_engine.Engine.Context.{Context}
use json_schema_engine.Engine.Apply.{run, apply_schema}
use json_schema_engine.Keywords.InPlace.{
  all_of, any_of, one_of, not_keyword, then_keyword, dependent_schemas,
}
use json_schema_engine.Keywords.Object.{
  properties, pattern_properties, additional_properties, property_names,
}
use json_schema_engine.Keywords.Array.{prefix_items, items, contains}
use json_schema_engine.Keywords.Unevaluated.{unevaluated_properties, unevaluated_items}
use json_schema_engine.Keywords.Validation.{type_keyword, type_matches}
use json_schema_engine.Dialects.{RegisteredDialect, dialect_of, in_phase, by_phase}
use json_schema_engine.Schemas.State.{Node, Dialects}
use json_schema_engine.Schemas.Locate.{child}
use json_schema_engine.Schemas.Register.{SchemaRegistry, new_registry}
use json_schema_engine.Schemas.Calls.{view_at, registered}
use json_schema_engine.Schemas.Served.{plain}
use json_schema_engine.Tests.Settings.{setting, registering}

abbrev pub entry : String → KeywordBehavior → String × DialectKeyword
entry name b = (name, record { name = name; behavior = b; vocabulary_uri = "urn:v" })

unfoldable pub dialect : RegisteredDialect
unfolding dialect_of by_phase in_phase
dialect =
    dialect_of "urn:d" ("urn:v" ∷ [])
      (record { allow_unknown_keywords = none; identifiers = none; ref_ignores_siblings = none })
      (entry "allOf" all_of
        ∷ entry "anyOf" any_of
        ∷ entry "not" not_keyword
        ∷ entry "dependentSchemas" dependent_schemas
        ∷ entry "properties" properties
        ∷ entry "propertyNames" property_names
        ∷ entry "prefixItems" prefix_items
        ∷ entry "items" items
        ∷ entry "oneOf" one_of
        ∷ entry "then" then_keyword
        ∷ entry "patternProperties" pattern_properties
        ∷ entry "additionalProperties" additional_properties
        ∷ entry "contains" contains
        ∷ entry "unevaluatedProperties" unevaluated_properties
        ∷ entry "unevaluatedItems" unevaluated_items
        ∷ entry "type" type_keyword
        ∷ [])

abbrev pub dialects : ℕ → Dialects
dialects g = ("urn:d", dialect) ∷ []

-- `{"type": "string"}`
abbrev pub text_schema : Json
text_schema = object (member "type" (string "string") end)

-- The instance keywords beside each other need not agree: each is asked by itself.
abbrev pub schema : Members
schema = member "allOf" (array (cons text_schema (cons (boolean false) nil))) (
    member "anyOf" (array (cons (boolean false) (cons text_schema nil))) (
      member "oneOf" (array (cons (boolean false) (cons text_schema nil))) (
        member "not" text_schema (
          member "then" text_schema (
            member "dependentSchemas" (object (member "a" text_schema end)) (
              member "properties" (object (member "a" text_schema end)) (
                member "patternProperties" (object (member "b" text_schema end)) (
                  member "additionalProperties" text_schema (
                    member "propertyNames" text_schema (
                      member "prefixItems" (array (cons text_schema (cons (boolean false) nil))) (
                        member "items" text_schema (
                          member "contains" text_schema (
                            member "unevaluatedProperties" text_schema
                              (member "unevaluatedItems" text_schema end))))))))))))))

abbrev pub root : Node
root = record { object_number = 0; place = ""; json = object schema }

unfoldable pub registry : SchemaRegistry
unfolding registering
registry =
    let r = new_registry (view_at dialects 0) in
    registered r (registering (view_at dialects 0) root "urn:a" r)

unfoldable pub lookups : Registry
unfolding registry plain
lookups = plain setting (view_at dialects 0) registry.indexes

-- Cursors of evaluations that are under way, below the schema itself.
unfoldable pub environment : Environment
unfolding setting
environment = record {
  registry = lookups;
  should_record = some (λ id name vocabulary. true);
  compile_regex = λ p. ok (λ s. str_eq p s);
  max_depth = 8;
  index_text = setting.index_text;
}

abbrev pub schema_ref : SchemaRef
schema_ref = record { node = object schema; base_uri = "urn:a"; pointer = "" }

-- The schema is being applied at the root of an instance.
unfoldable pub start : Json → EvalState
unfolding initial
start v = record (initial true 1) {
  depth = 1;
  active = ("urn:a#", root_cursor 0 v) ∷ [];
  dynamic_scope = "urn:a" ∷ [];
}

abbrev pub context : String → KeywordBehavior → Json → Json → Context
context name b keyword_value v = record {
  schema_ref = schema_ref;
  entry = record { name = name; behavior = b; vocabulary_uri = "urn:v" };
  value = keyword_value;
  cursor = root_cursor 0 v;
  path = no_path;
}

unfoldable pub same_segment : Segment → Segment → Bool
same_segment (key j) (key k) = str_eq j k
same_segment (index i) (index j) = i == j
same_segment (key j) (index i) = false
same_segment (index i) (key k) = false

unfoldable pub same_segments : List Segment → List Segment → Bool
unfolding same_segment
same_segments [] [] = true
same_segments (s ∷ ss) (t ∷ ts) = same_segment s t && same_segments ss ts
same_segments [] (t ∷ ts) = false
same_segments (s ∷ ss) [] = false

-- The parts of the keywords.
abbrev pub paths : List (List Segment)
paths =
    (key "allOf" ∷ index 0 ∷ [])
    ∷ (key "allOf" ∷ index 1 ∷ [])
    ∷ (key "anyOf" ∷ index 0 ∷ [])
    ∷ (key "anyOf" ∷ index 1 ∷ [])
    ∷ (key "oneOf" ∷ index 0 ∷ [])
    ∷ (key "oneOf" ∷ index 1 ∷ [])
    ∷ (key "not" ∷ [])
    ∷ (key "then" ∷ [])
    ∷ (key "dependentSchemas" ∷ key "a" ∷ [])
    ∷ (key "properties" ∷ key "a" ∷ [])
    ∷ (key "patternProperties" ∷ key "b" ∷ [])
    ∷ (key "additionalProperties" ∷ [])
    ∷ (key "propertyNames" ∷ [])
    ∷ (key "prefixItems" ∷ index 0 ∷ [])
    ∷ (key "prefixItems" ∷ index 1 ∷ [])
    ∷ (key "items" ∷ [])
    ∷ (key "contains" ∷ [])
    ∷ (key "unevaluatedProperties" ∷ [])
    ∷ (key "unevaluatedItems" ∷ [])
    ∷ []

unfoldable pub part_of : List Segment → SchemaRef
unfolding lookups child
part_of segs = elim (lookups.child schema_ref segs) [ err e ↦ schema_ref | ok r ↦ r ]

abbrev refused : List (List Segment)
refused =
    (key "allOf" ∷ index 1 ∷ [])
    ∷ (key "anyOf" ∷ index 0 ∷ [])
    ∷ (key "oneOf" ∷ index 0 ∷ [])
    ∷ (key "prefixItems" ∷ index 1 ∷ [])
    ∷ []

-- `false` rejects, and the other parts accept the texts.
unfoldable pub verdicts : List Segment → Json → Bool
unfolding same_segments type_matches
verdicts segs v = not (any (same_segments segs) refused) && type_matches (string "string") v

-- What a keyword of the document returns for an instance, at its root.
abbrev pub outcome : String → KeywordBehavior → Json → Json → EvalState → Result (Bool × Bool)
outcome name b keyword_value v s =
    (run environment (apply_schema environment 7) (context name b keyword_value v)
      (b.evaluate keyword_value (root_cursor 0 v) schema) false s).0

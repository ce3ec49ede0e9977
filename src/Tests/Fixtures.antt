-- ===== src/Tests/Fixtures.antt =====
-- A registry whose subschemas are `true` and `false`, and a dialect with `anyOf` and `properties`.
use json_schema_engine.Base.{
  Bool, true, false, none, List, [], ◌∷◌, String, ◌==◌, ok, err, unresolvable_ref, if◌then◌else◌,
  str_eq,
}
use json_schema_engine.Json.{boolean, string, object, array, nil, cons, Members, end, member}
use json_schema_engine.Cursor.{root_cursor, Segment, key, index, SchemaRef}
use json_schema_engine.Engine.State.{no_path, EvalState, initial}
use json_schema_engine.Engine.Program.{
  Program, KeywordBehavior, DialectKeyword, Dialect, Registry, Environment,
}
use json_schema_engine.Engine.Context.{Context}
use json_schema_engine.Keywords.InPlace.{any_of}
use json_schema_engine.Keywords.Object.{properties}

-- The subschema at a second position accepts, and so does the one of a single keyword.
abbrev pub at_second : List Segment → Bool
at_second (key k ∷ index i ∷ []) = i == 1
at_second _ = true

abbrev pub subschema : List Segment → SchemaRef
subschema segs = record {
  node = boolean (at_second segs);
  base_uri = "https://example.com/s";
  pointer = "/sub";
}

abbrev pub entry_of : String → KeywordBehavior → DialectKeyword
entry_of name b = record { name = name; behavior = b; vocabulary_uri = "https://example.com/v" }

unfoldable pub dialect : Dialect
unfolding any_of properties
dialect = record {
  uri = "https://example.com/d";
  keywords =
      ("anyOf", entry_of "anyOf" any_of) ∷ ("properties", entry_of "properties" properties) ∷ [];
  ordered = entry_of "anyOf" any_of ∷ entry_of "properties" properties ∷ [];
  allow_unknown_keywords = true;
  ref_ignores_siblings = false;
}

-- `{"anyOf": [false, true], "title": "t"}`
abbrev pub schema_object : Members
schema_object =
    member "anyOf" (array (cons (boolean false) (cons (boolean true) nil)))
      (member "title" (string "t") end)

abbrev pub root : SchemaRef
root = record { node = object schema_object; base_uri = "https://example.com/s"; pointer = "" }

abbrev pub registry : Registry
registry = record {
  child = λ r segs. ok (subschema segs);
  resolve_ref = λ ref base. ok root;
  dynamic_reference = λ ref base. ok (root, none);
  dynamic_anchor = λ uri anchor. none;
  recursive_reference = λ ref base. ok (root, false);
  has_recursive_root = λ uri. false;
  root_ref =
      λ uri. if str_eq uri "https://example.com/s" then ok root else err (unresolvable_ref uri);
  dialect_for = λ uri. ok dialect;
  produced_ids = "id:k" ∷ [];
  consumed_ids = "id:k" ∷ [];
}

abbrev pub environment : Environment
environment = record {
  registry = registry;
  should_record = none;
  compile_regex = λ p. ok (λ s. str_eq p s);
  max_depth = 8;
  index_text = λ i. "0";
}

unfoldable pub start : EvalState
unfolding initial
start = initial true 1

-- A keyword under the identifier that the registry lists.
abbrev pub context : Context
context = record {
  schema_ref = root;
  entry = entry_of "k" (record {
    id = "id:k";
    phase = 0;
    structural = false;
    evaluate = λ v c ms. Program.done true;
  });
  value = boolean true;
  cursor = root_cursor 0 (string "instance");
  path = no_path;
}

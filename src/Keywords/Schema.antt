-- ===== src/Keywords/Schema.antt =====
-- packages/core/src/keywords/rejects.ts and core.ts, and how a keyword reads its value.
use Prim.Native.String.{◌++◌ as str_append}
use json_schema_engine.Base.{
  Bool, true, false, List, [], ◌∷◌, ◌++◌, String, foreign, if◌then◌else◌, any, str_eq, Option, none,
  some,
}
use json_schema_engine.Json.{
  Json, boolean, array, object, string, number, Members, elements, entries,
}
use json_schema_engine.Cursor.{Cursor}
use json_schema_engine.Engine.State.{Datum, Description}
use json_schema_engine.Engine.Program.{
  Program, done, fail, annotate, report, resolve_ref, resolve_dynamic, resolve_recursive,
  apply_resolved, KeywordBehavior,
}

-- `isFalse`
abbrev pub is_false : Json → Bool
is_false (boolean false) = true
is_false _ = false

-- `value as JsonValue[]`; another shape throws when it is used as one.
abbrev pub with_array : Json → (List Json → Program Bool) → Program Bool
with_array (array xs) k = k (elements xs)
with_array _ k = fail (foreign "TypeError")

-- `Object.entries(value)`. An array or a text would be swept by its indexes; a schema that has one
-- here is outside the model, which throws as for null.
abbrev pub with_entries : Json → (List (String × Json) → Program Bool) → Program Bool
with_entries (object ms) k = k (entries ms)
with_entries (number n) k = k []
with_entries (boolean b) k = k []
with_entries _ k = fail (foreign "TypeError")

-- `value as string`
abbrev pub with_text : Json → (String → Program Bool) → Program Bool
with_text (string s) k = k s
with_text _ k = fail (foreign "TypeError")

-- An assertion's error, by the helper that describes it and what the helper is given.
abbrev pub described : String → List Datum → Description
described template arguments = record { template = template; arguments = arguments }

-- `ctx.report(…)`, and the verdict `false`
abbrev pub rejecting : Description → Program Bool
rejecting d = report d (done false)

abbrev pub member_of : String → List String → Bool
member_of k l = any (str_eq k) l

-- `set.add(k)` of a set in insertion order
abbrev pub add_name : String → List String → List String
add_name k l = if member_of k l then l else l ++ k ∷ []

abbrev pub behavior : String → (Json → Cursor → Members → Program Bool) → KeywordBehavior
behavior id evaluate = record { id = id; phase = 0; structural = false; evaluate = evaluate }

-- core.ts: `annotationOnly`, `inertSubschema` and the reference keywords
abbrev pub annotation_only : String → KeywordBehavior
annotation_only id = behavior id (λ value c schema. annotate (done true))

abbrev pub inert_subschema : String → KeywordBehavior
inert_subschema id = behavior id (λ value c schema. done true)

abbrev pub core_id : String → String
core_id name = str_append "https://json-schema.org/draft/2020-12/vocab/core#" name

unfoldable pub ref : KeywordBehavior
ref =
    behavior (core_id "$ref")
      (λ value c schema. with_text value (λ u. resolve_ref u (λ t. apply_resolved t (λ b. done b))))

unfoldable pub dynamic_ref : KeywordBehavior
dynamic_ref = behavior (core_id "$dynamicRef") (λ value c schema.
    with_text value (λ u. resolve_dynamic u (λ t. apply_resolved t (λ b. done b))))

unfoldable pub recursive_ref : KeywordBehavior
recursive_ref =
    behavior "https://json-schema.org/draft/2019-09/vocab/core#$recursiveRef" (λ value c schema.
      with_text value (λ u. resolve_recursive u (λ t. apply_resolved t (λ b. done b))))

-- What is done where a name is absent, and where it has a value.
abbrev pub when_present {ℓ} : {A : Type ℓ} → Option Json → A → (Json → A) → A
when_present none absent present = absent
when_present (some v) absent present = present v

-- `if (!isObject(cursor.value)) return true;` and the same for arrays, with the rest of the keyword.
abbrev pub on_object : Json → (List (String × Json) → Program Bool) → Program Bool
on_object (object ms) k = k (entries ms)
on_object _ k = done true

abbrev pub on_array : Json → (List Json → Program Bool) → Program Bool
on_array (array xs) k = k (elements xs)
on_array _ k = done true

-- ===== src/Keywords/Required.antt =====
-- packages/core/src/keywords/validation.ts: the assertions over the names of an object, and the
-- helpers of messages.ts they test with.
use json_schema_engine.Base.{
  Bool, true, false, ◌&&◌, ◌||◌, not, List, [], ◌∷◌, String, all, if◌then◌else◌,
}
use json_schema_engine.Json.{Json, string, array, elements, has_own}
use json_schema_engine.Cursor.{value}
use json_schema_engine.Engine.Program.{done, KeywordBehavior}
use json_schema_engine.Keywords.Schema.{behavior, on_object, on_array}
use json_schema_engine.Keywords.Validation.{validation_id, asserted}

-- The texts among the values of an array.
unfoldable pub texts : List Json → List String
texts [] = []
texts (string s ∷ xs) = s ∷ texts xs
texts (_ ∷ xs) = texts xs

unfoldable pub required : KeywordBehavior
unfolding texts
required = behavior (validation_id "required") (λ v c schema. on_object (value c) (λ instance.
    on_array v (λ xs. asserted "required" v (all (λ name. has_own name instance) (texts xs)))))

-- messages.ts: `missingNames` and `missingDependencies`
unfoldable pub missing_names : List (String × Json) → List Json → List String
missing_names instance [] = []
missing_names instance (string n ∷ xs) =
    let rest = missing_names instance xs in if has_own n instance then rest else n ∷ rest
missing_names instance (_ ∷ xs) = missing_names instance xs

abbrev pub keep_missing :
    String → List String → List (String × List String) → List (String × List String)
keep_missing name [] found = found
keep_missing name (m ∷ ms) found = (name, m ∷ ms) ∷ found

unfoldable pub missing_dependencies :
    List (String × Json) → List (String × Json) → List (String × List String)
unfolding missing_names
missing_dependencies instance [] = []
missing_dependencies instance ((name, array deps) ∷ spec) =
    let rest = missing_dependencies instance spec in
    if has_own name instance
    then keep_missing name (missing_names instance (elements deps)) rest
    else rest
missing_dependencies instance ((name, _) ∷ spec) = missing_dependencies instance spec

abbrev pub no_pair : List (String × List String) → Bool
no_pair [] = true
no_pair (p ∷ ps) = false

unfoldable pub dependent_required : KeywordBehavior
unfolding missing_dependencies
dependent_required = behavior (validation_id "dependentRequired") (λ v c schema.
    on_object (value c) (λ instance.
      on_object v
        (λ spec. asserted "dependencies" v (no_pair (missing_dependencies instance spec)))))

-- `contains` reads them; they assert nothing.
unfoldable pub min_contains : KeywordBehavior
min_contains = behavior (validation_id "minContains") (λ v c schema. done true)

unfoldable pub max_contains : KeywordBehavior
max_contains = behavior (validation_id "maxContains") (λ v c schema. done true)

-- `dependencyAbsent`, as the generated code evaluates it: a present name whose array member names an
-- absent one. The condition of no pair, for which the source emits nothing, is false.
unfoldable pub some_absent : List (String × Json) → List Json → Bool
some_absent instance [] = false
some_absent instance (string n ∷ xs) = not (has_own n instance) || some_absent instance xs
some_absent instance (_ ∷ xs) = some_absent instance xs

unfoldable pub dependency_absent : List (String × Json) → List (String × Json) → Bool
unfolding some_absent
dependency_absent instance [] = false
dependency_absent instance ((name, array deps) ∷ spec) =
    has_own name instance && some_absent instance (elements deps) || dependency_absent instance spec
dependency_absent instance ((name, _) ∷ spec) = dependency_absent instance spec

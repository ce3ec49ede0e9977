-- ===== src/Keywords/Lowered.antt =====
-- packages/core/src/keywords/validation.ts: the lowered conditions against the interpreted tests, and
-- the numeric bounds against each other.
use json_schema_engine.Base.{Bool, true, false, ◌&&◌, not, List, [], ◌∷◌, String, ◌≡◌, refl, arith}
use json_schema_engine.Json.{Json, null, boolean, number, string, array, object, elements}
use json_schema_engine.Keywords.Required.{
  missing_names, missing_dependencies, no_pair, keep_missing, some_absent, dependency_absent,
}

abbrev no_text : List String → Bool
no_text [] = true
no_text (n ∷ l) = false

missing_names_lem :
    (instance : List (String × Json)) (xs : List Json)
    → some_absent instance xs ≡ not (no_text (missing_names instance xs))
unfolding some_absent missing_names
missing_names_lem instance [] = refl
missing_names_lem instance (string n ∷ xs) = ground (arith, missing_names_lem instance xs)
missing_names_lem instance (null ∷ xs) = missing_names_lem instance xs
missing_names_lem instance (boolean b ∷ xs) = missing_names_lem instance xs
missing_names_lem instance (number d ∷ xs) = missing_names_lem instance xs
missing_names_lem instance (array l ∷ xs) = missing_names_lem instance xs
missing_names_lem instance (object ms ∷ xs) = missing_names_lem instance xs

kept :
    (name : String) (l : List String) (found : List (String × List String))
    → no_pair (keep_missing name l found) ≡ (no_text l && no_pair found)
kept name [] found = refl
kept name (m ∷ ms) found = refl

-- The condition that the compiled code tests for `dependentRequired` holds exactly where the
-- interpreter finds a missing dependency.
pub dependencies_agree :
    (instance spec : List (String × Json))
    → dependency_absent instance spec ≡ not (no_pair (missing_dependencies instance spec))
unfolding dependency_absent missing_dependencies
dependencies_agree instance [] = refl
dependencies_agree instance ((name, array deps) ∷ spec) = ground (
  arith,
  missing_names_lem instance (elements deps),
  dependencies_agree instance spec,
  kept name (missing_names instance (elements deps)) (missing_dependencies instance spec),
)
dependencies_agree instance ((name, null) ∷ spec) = dependencies_agree instance spec
dependencies_agree instance ((name, boolean b) ∷ spec) = dependencies_agree instance spec
dependencies_agree instance ((name, number d) ∷ spec) = dependencies_agree instance spec
dependencies_agree instance ((name, string s) ∷ spec) = dependencies_agree instance spec
dependencies_agree instance ((name, object ms) ∷ spec) = dependencies_agree instance spec

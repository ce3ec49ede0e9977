-- ===== src/Schemas/Facts.antt =====
-- packages/core/src/keywords: `analyze` of the core, applicator, unevaluated and validation keywords
-- of the 2020-12 draft and of `$recursiveRef` (the keywords of the earlier drafts are not here),
-- but for the applications, which the registry does not read. A keyword that has none is not listed.
pub mod Positions
use json_schema_engine.Base.{ℕ, zero, suc, Option, none, some, List, [], ◌∷◌, map, String, length}
use json_schema_engine.Json.{Json, string, array, object, Members, elements, entries, keys, lookup}
use json_schema_engine.Cursor.{Segment, key, index}
use json_schema_engine.Keywords.Schema.{core_id}
use json_schema_engine.Keywords.InPlace.{applicator_id}
use json_schema_engine.Keywords.Unevaluated.{unevaluated_id}
use json_schema_engine.Keywords.Validation.{validation_id}
use json_schema_engine.Schemas.State.{
  StaticFacts, NameCoverage, names, patterns, all_names, IndexCoverage, prefix, all_from,
  all_indexes, dynamic_indexes,
}

abbrev pub nothing : StaticFacts
nothing = record {
  subschemas = [];
  references = [];
  produces = [];
  consumes = [];
  regexes = [];
  evaluates_names = none;
  evaluates_indexes = none;
}

-- `SELF`
abbrev pub self_facts : StaticFacts
self_facts = record nothing { subschemas = [] ∷ [] }

abbrev pub one_key : String → List Segment
one_key k = key k ∷ []

-- `Object.keys(value)` where it is an object
abbrev pub object_keys : Json → List String
object_keys (object ms) = keys (entries ms)
object_keys _ = []

unfoldable pub map_positions : Json → StaticFacts
map_positions (object ms) = record nothing { subschemas = map one_key (keys (entries ms)) }
map_positions _ = nothing

-- `schemas.map((_, i) => [i])`
abbrev pub element_paths : ℕ → List Json → List (List Segment)
element_paths i [] = []
element_paths i (x ∷ xs) = (index i ∷ []) ∷ element_paths (suc i) xs

unfoldable pub array_positions : Json → StaticFacts
array_positions (array xs) = record nothing { subschemas = element_paths 0 (elements xs) }
array_positions _ = nothing

unfoldable pub reference_facts : Json → StaticFacts
reference_facts (string s) = record nothing { references = s ∷ [] }
reference_facts _ = nothing

abbrev pub array_length : Json → ℕ
array_length (array xs) = length (elements xs)
array_length _ = 0

abbrev sibling_length : Option Json → ℕ
sibling_length none = 0
sibling_length (some v) = array_length v

-- The facts of a keyword, from its value and the schema object around it.
abbrev pub Analysis : Type 0
Analysis = Json → Members → StaticFacts

unfoldable pub self_analysis : Analysis
self_analysis value schema = self_facts

unfoldable pub array_analysis : Analysis
unfolding array_positions
array_analysis value schema = array_positions value

unfoldable pub map_analysis : Analysis
unfolding map_positions
map_analysis value schema = map_positions value

unfoldable pub reference_analysis : Analysis
unfolding reference_facts
reference_analysis value schema = reference_facts value

unfoldable pub if_analysis : Analysis
if_analysis value schema = record self_facts { produces = applicator_id "if" ∷ [] }

unfoldable pub branch_analysis : Analysis
branch_analysis value schema = record self_facts { consumes = applicator_id "if" ∷ [] }

unfoldable pub properties_analysis : Analysis
unfolding map_positions
properties_analysis value schema = record (map_positions value) {
  produces = applicator_id "properties" ∷ [];
  evaluates_names = some (names (object_keys value));
}

unfoldable pub pattern_properties_analysis : Analysis
unfolding map_positions
pattern_properties_analysis value schema = record (map_positions value) {
  regexes = object_keys value;
  produces = applicator_id "patternProperties" ∷ [];
  evaluates_names = some (patterns (object_keys value));
}

unfoldable pub additional_properties_analysis : Analysis
additional_properties_analysis value schema = record self_facts {
  produces = applicator_id "additionalProperties" ∷ [];
  evaluates_names = some all_names;
}

unfoldable pub prefix_items_analysis : Analysis
unfolding array_positions
prefix_items_analysis value schema = record (array_positions value) {
  produces = applicator_id "prefixItems" ∷ [];
  evaluates_indexes = some (prefix (array_length value));
}

unfoldable pub items_analysis : Analysis
items_analysis value schema = record self_facts {
  produces = applicator_id "items" ∷ [];
  evaluates_indexes = some (all_from (sibling_length (lookup "prefixItems" (entries schema))));
}

unfoldable pub contains_analysis : Analysis
contains_analysis value schema = record self_facts {
  produces = applicator_id "contains" ∷ [];
  evaluates_indexes = some dynamic_indexes;
}

unfoldable pub unevaluated_properties_analysis : Analysis
unevaluated_properties_analysis value schema = record self_facts {
  consumes =
      applicator_id "properties"
      ∷ applicator_id "patternProperties"
      ∷ applicator_id "additionalProperties"
      ∷ unevaluated_id "unevaluatedProperties"
      ∷ [];
  produces = unevaluated_id "unevaluatedProperties" ∷ [];
  evaluates_names = some all_names;
}

unfoldable pub unevaluated_items_analysis : Analysis
unevaluated_items_analysis value schema = record self_facts {
  consumes =
      applicator_id "prefixItems"
      ∷ applicator_id "items"
      ∷ applicator_id "contains"
      ∷ unevaluated_id "unevaluatedItems"
      ∷ [];
  produces = unevaluated_id "unevaluatedItems" ∷ [];
  evaluates_indexes = some all_indexes;
}

abbrev pattern_texts : Json → List String
pattern_texts (string s) = s ∷ []
pattern_texts _ = []

unfoldable pub pattern_analysis : Analysis
pattern_analysis value schema = record nothing { regexes = pattern_texts value }

-- Each behavior's id with its analysis.
unfoldable pub analyses : List (String × Analysis)
unfolding array_analysis self_analysis if_analysis branch_analysis map_analysis properties_analysis
    pattern_properties_analysis additional_properties_analysis prefix_items_analysis items_analysis
    contains_analysis unevaluated_properties_analysis unevaluated_items_analysis pattern_analysis
    reference_analysis
analyses =
    (core_id "$ref", reference_analysis)
    ∷ (core_id "$dynamicRef", reference_analysis)
    ∷ ("https://json-schema.org/draft/2019-09/vocab/core#$recursiveRef", reference_analysis)
    ∷ (core_id "$defs", map_analysis)
    ∷ (applicator_id "allOf", array_analysis)
    ∷ (applicator_id "anyOf", array_analysis)
    ∷ (applicator_id "oneOf", array_analysis)
    ∷ (applicator_id "not", self_analysis)
    ∷ (applicator_id "if", if_analysis)
    ∷ (applicator_id "then", branch_analysis)
    ∷ (applicator_id "else", branch_analysis)
    ∷ (applicator_id "dependentSchemas", map_analysis)
    ∷ (applicator_id "properties", properties_analysis)
    ∷ (applicator_id "patternProperties", pattern_properties_analysis)
    ∷ (applicator_id "additionalProperties", additional_properties_analysis)
    ∷ (applicator_id "prefixItems", prefix_items_analysis)
    ∷ (applicator_id "items", items_analysis)
    ∷ (applicator_id "contains", contains_analysis)
    ∷ (applicator_id "propertyNames", self_analysis)
    ∷ (unevaluated_id "unevaluatedProperties", unevaluated_properties_analysis)
    ∷ (unevaluated_id "unevaluatedItems", unevaluated_items_analysis)
    ∷ (validation_id "pattern", pattern_analysis)
    ∷ []

-- ===== src/Tests/Keywords.antt =====
-- The verdicts of the keywords of the document for instances at its root, by their theorems.
use json_schema_engine.Base.{◌≡◌, refl, true, false, ok}
use json_schema_engine.Json.{
  Json, null, boolean, string, object, array, Items, nil, cons, Members, end, member, lookup,
}
use json_schema_engine.Cursor.{root_cursor}
use json_schema_engine.Keywords.InPlace.{all_of, any_of, one_of, not_keyword, dependent_schemas}
use json_schema_engine.Keywords.Object.{
  properties, pattern_properties, additional_properties, property_names, sibling_names,
}
use json_schema_engine.Keywords.Array.{
  items, prefix_items, prefix_length, contains, bound_of, below, above,
}
use json_schema_engine.Keywords.Yields.{Situated, items_claimed}
use json_schema_engine.Keywords.Yields.InPlace.{
  any_of_verdict, all_of_verdict, one_of_verdict, not_verdict, indexed, matching, all_of_test,
}
use json_schema_engine.Keywords.Yields.Object.{properties_verdict}
use json_schema_engine.Keywords.Yields.Names.{
  additional_properties_verdict, property_names_verdict, names_accepted,
}
use json_schema_engine.Keywords.Yields.Patterns.{
  pattern_properties_verdict, dependent_schemas_verdict,
}
use json_schema_engine.Keywords.Yields.Array.{
  items_verdict, prefix_items_verdict, positions_accept, position_forbidden,
}
use json_schema_engine.Keywords.Yields.Contains.{contains_verdict, counted, contained}
use json_schema_engine.Tests.Document.{start, schema, text_schema, outcome, verdicts, same_segments}
use json_schema_engine.Tests.Oracles.{oracle, declared}

situated : (v : Json) → Situated (start v) (start v)
situated v = record { depth = refl; active = refl; scope = refl }

-- `"x"`
abbrev text : Json
text = string "x"

-- `[false, {"type": "string"}]` and the other way round
abbrev refused_first : Items
refused_first = cons (boolean false) (cons text_schema nil)

abbrev refused_last : Items
refused_last = cons text_schema (cons (boolean false) nil)

some_branch_accepts :
    outcome "anyOf" any_of (array refused_first) text (start text) ≡ ok (true, false)
unfolding oracle items_claimed indexed verdicts same_segments
some_branch_accepts =
    any_of_verdict (oracle "anyOf" any_of (array refused_first) text) (root_cursor 0 text)
      refused_first schema (start text) refl (situated text)

all_of_verdict_example :
    outcome "allOf" all_of (array refused_last) text (start text) ≡ ok (false, true)
unfolding oracle items_claimed all_of_test indexed verdicts same_segments
all_of_verdict_example =
    all_of_verdict (oracle "allOf" all_of (array refused_last) text) (root_cursor 0 text)
      refused_last schema (start text) refl (situated text)

one_of_verdict_example :
    outcome "oneOf" one_of (array refused_first) text (start text) ≡ ok (true, false)
unfolding oracle items_claimed matching verdicts same_segments
one_of_verdict_example =
    one_of_verdict (oracle "oneOf" one_of (array refused_first) text) (root_cursor 0 text)
      refused_first schema (start text) refl (situated text)

text_refused : outcome "not" not_keyword text_schema text (start text) ≡ ok (false, true)
unfolding oracle verdicts same_segments
text_refused =
    not_verdict (oracle "not" not_keyword text_schema text) (root_cursor 0 text) text_schema schema
      (start text) refl (situated text)

-- `{"a": "x", "b": null, "c": null}`
abbrev three_members : Members
three_members = member "a" (string "x") (member "b" null (member "c" null end))

abbrev three : Json
three = object three_members

abbrev one_property : Members
one_property = member "a" text_schema end

listed_property_accepted :
    outcome "properties" properties (object one_property) three (start three) ≡ ok (true, false)
unfolding properties oracle verdicts same_segments lookup
listed_property_accepted =
    properties_verdict (oracle "properties" properties (object one_property) three)
      (root_cursor 0 three) three_members one_property schema refl
      (declared "properties" properties (object one_property) three refl) refl (start three)
      (situated three)

-- The names of the siblings `properties` and `patternProperties` are passed over, and `"c"` is not.
additional_properties_verdict_example :
    outcome "additionalProperties" additional_properties text_schema three (start three)
    ≡ ok (false, false)
unfolding additional_properties oracle verdicts same_segments sibling_names lookup
additional_properties_verdict_example =
    additional_properties_verdict
      (oracle "additionalProperties" additional_properties text_schema three) (root_cursor 0 three)
      text_schema three_members schema refl
      (declared "additionalProperties" additional_properties text_schema three refl) refl refl
      (start three) (situated three)

names_judged :
    outcome "propertyNames" property_names text_schema three (start three) ≡ ok (true, false)
unfolding oracle verdicts same_segments names_accepted
names_judged =
    property_names_verdict (oracle "propertyNames" property_names text_schema three)
      (root_cursor 0 three) text_schema three_members schema refl refl (start three)
      (situated three)

-- The pattern matches its own text alone.
abbrev one_pattern : Members
one_pattern = member "b" text_schema end

pattern_properties_verdict_example :
    outcome "patternProperties" pattern_properties (object one_pattern) three (start three)
    ≡ ok (false, false)
unfolding pattern_properties oracle verdicts same_segments
pattern_properties_verdict_example =
    pattern_properties_verdict
      (oracle "patternProperties" pattern_properties (object one_pattern) three)
      (root_cursor 0 three) three_members one_pattern schema refl
      (declared "patternProperties" pattern_properties (object one_pattern) three refl) refl refl
      (start three) (situated three)

dependent_refused :
    outcome "dependentSchemas" dependent_schemas (object one_property) three (start three)
    ≡ ok (false, false)
unfolding oracle verdicts same_segments lookup
dependent_refused =
    dependent_schemas_verdict
      (oracle "dependentSchemas" dependent_schemas (object one_property) three)
      (root_cursor 0 three) three_members one_property schema refl refl (start three)
      (situated three)

-- `["x", null, "y"]`
abbrev three_items : Items
three_items = cons (string "x") (cons null (cons (string "y") nil))

abbrev listed : Json
listed = array three_items

rest_accepted : outcome "items" items text_schema listed (start listed) ≡ ok (true, false)
unfolding items oracle verdicts same_segments prefix_length lookup
rest_accepted =
    items_verdict (oracle "items" items text_schema listed) (root_cursor 0 listed) text_schema
      three_items schema refl (declared "items" items text_schema listed refl) refl (start listed)
      (situated listed)

second_refused :
    outcome "prefixItems" prefix_items (array refused_last) listed (start listed) ≡ ok (false, true)
unfolding prefix_items oracle verdicts same_segments items_claimed positions_accept
    position_forbidden
second_refused =
    prefix_items_verdict (oracle "prefixItems" prefix_items (array refused_last) listed)
      (root_cursor 0 listed) refused_last three_items schema refl
      (declared "prefixItems" prefix_items (array refused_last) listed refl) refl (start listed)
      (situated listed)

-- Two items are texts.
contains_verdict_example :
    outcome "contains" contains text_schema listed (start listed) ≡ ok (true, false)
unfolding contains oracle verdicts same_segments counted contained bound_of below above lookup
contains_verdict_example =
    contains_verdict (oracle "contains" contains text_schema listed) (root_cursor 0 listed)
      text_schema three_items schema refl (declared "contains" contains text_schema listed refl)
      refl (start listed) (situated listed)

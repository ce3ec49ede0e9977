-- ===== src/Tests/Sweeps.antt =====
-- The verdicts of the keywords that read what adjacent keywords have produced.
use json_schema_engine.Base.{◌≡◌, refl, true, false, [], ◌∷◌, String, ok}
use json_schema_engine.Json.{
  Json, null, string, object, array, Items, nil, cons, Members, end, member,
}
use json_schema_engine.Cursor.{Cursor, root_cursor, child_cursor, index, depth}
use json_schema_engine.Engine.State.{
  EvalState, DependencyRecord, Datum, names, indexes, amount, verdict, no_path,
}
use json_schema_engine.Engine.Operations.{scan_active}
use json_schema_engine.Engine.Guard.{is_active, scan_active-is_active, no_deeper_than, same_depths}
use json_schema_engine.Engine.Context.{select_views}
use json_schema_engine.Keywords.InPlace.{applicator_id}
use json_schema_engine.Keywords.Unevaluated.{
  unevaluated_properties, unevaluated_items, Covered, cover, cover_all, seen_names, property_ids,
  item_ids, datum_names,
}
use json_schema_engine.Keywords.Yields.{Situated}
use json_schema_engine.Keywords.Yields.Unevaluated.{unevaluated_properties_verdict}
use json_schema_engine.Keywords.Yields.UnevaluatedItems.{
  unevaluated_items_verdict, uncovered_accept, uncovered_forbidden,
}
use json_schema_engine.Tests.Document.{
  start, schema, schema_ref, text_schema, outcome, verdicts, same_segments,
}
use json_schema_engine.Tests.Oracles.{oracle, declared, names_consumed, indexes_consumed}

-- What a keyword has produced at the root of the instance.
abbrev produced_by : String → Datum → Json → DependencyRecord
produced_by name d v = record {
  behavior_id = applicator_id name;
  keyword_name = name;
  schema_ref = schema_ref;
  path = no_path;
  cursor = root_cursor 0 v;
  datum = d;
}

-- `{"a": null, "b": "y"}`, beside a `properties` that lists `"a"`
abbrev two_members : Members
two_members = member "a" null (member "b" (string "y") end)

abbrev two : Json
two = object two_members

abbrev after_properties : EvalState
after_properties = record (start two) {
  frame = record {
    annotations = [];
    dependencies = produced_by "properties" (names ("a" ∷ [])) two ∷ [];
  };
}

beside_names : Situated (start two) after_properties
beside_names = record { depth = refl; active = refl; scope = refl }

unevaluated_properties_verdict_example :
    outcome "unevaluatedProperties" unevaluated_properties text_schema two after_properties
    ≡ ok (true, false)
unfolding oracle verdicts same_segments unevaluated_properties select_views seen_names property_ids
    datum_names
unevaluated_properties_verdict_example =
    unevaluated_properties_verdict
      (oracle "unevaluatedProperties" unevaluated_properties text_schema two) (root_cursor 0 two)
      text_schema ("a" ∷ []) two_members schema refl
      (declared "unevaluatedProperties" unevaluated_properties text_schema two refl) refl
      after_properties beside_names names_consumed refl

-- `[null, "x", null]`, beside a `prefixItems` that reached the first item
-- and a `contains` that counted the third
abbrev three_items : Items
three_items = cons null (cons (string "x") (cons null nil))

abbrev three : Json
three = array three_items

abbrev after_items : EvalState
after_items = record (start three) {
  frame = record {
    annotations = [];
    dependencies =
        produced_by "prefixItems" (amount 0) three
        ∷ produced_by "contains" (indexes (2 ∷ [])) three
        ∷ [];
  };
}

beside_items : Situated (start three) after_items
beside_items = record { depth = refl; active = refl; scope = refl }

abbrev first_and_third : Covered
first_and_third = record { prefix = 1; indexes = 2 ∷ [] }

unevaluated_items_verdict_example :
    outcome "unevaluatedItems" unevaluated_items text_schema three after_items ≡ ok (true, false)
unfolding oracle verdicts same_segments unevaluated_items select_views cover cover_all item_ids
    uncovered_accept uncovered_forbidden
unevaluated_items_verdict_example =
    unevaluated_items_verdict (oracle "unevaluatedItems" unevaluated_items text_schema three)
      (root_cursor 0 three) text_schema first_and_third three_items schema refl
      (declared "unevaluatedItems" unevaluated_items text_schema three refl) refl after_items
      beside_items indexes_consumed refl

-- `null`, beside an `if` that accepted
abbrev after_if : EvalState
after_if = record (start null) {
  frame = record { annotations = []; dependencies = produced_by "if" (verdict true) null ∷ [] };
}

abbrev at_array : Cursor
at_array = root_cursor 0 three

-- The schema "s#" is active at the root, below an application at an item.
scan_from_item :
    scan_active "s#" at_array
      (("t#", child_cursor 1 at_array (index 0) (string "x")) ∷ ("s#", at_array) ∷ [])
    ≡ is_active "s#" at_array
        (("t#", child_cursor 1 at_array (index 0) (string "x")) ∷ ("s#", at_array) ∷ [])
unfolding no_deeper_than same_depths depth
scan_from_item =
    scan_active-is_active "s#" at_array
      (("t#", child_cursor 1 at_array (index 0) (string "x")) ∷ ("s#", at_array) ∷ []) 1 refl refl

-- ===== src/Tests/Coverage.antt =====
-- The compiled folds and the interpreter over the same records.
use json_schema_engine.Base.{◌≡◌, refl, some, List, [], ◌∷◌, String}
use json_schema_engine.Cursor.{root_cursor}
use json_schema_engine.Json.{string}
use json_schema_engine.Engine.State.{Datum, DependencyRecord, names, amount, indexes, no_path}
use json_schema_engine.Engine.Program.{every}
use json_schema_engine.Engine.Context.{select_views}
use json_schema_engine.Keywords.InPlace.{applicator_id}
use json_schema_engine.Keywords.Unevaluated.{
  property_ids, item_ids, seen_names, cover_all, nothing_covered,
}
use json_schema_engine.Coverage.{fold_name_coverage, fold_index_coverage, harvest_coverage}
use json_schema_engine.Coverage.Agreement.{
  all_named, all_shaped, fold_name_coverage-seen_names, fold_index_coverage-cover_all,
}
use json_schema_engine.Tests.Fixtures.{context, root}

abbrev produced : String → Datum → DependencyRecord
produced name d = record {
  behavior_id = applicator_id name;
  keyword_name = name;
  schema_ref = root;
  path = no_path;
  cursor = root_cursor 0 (string "instance");
  datum = d;
}

abbrev name_records : List DependencyRecord
name_records =
    produced "properties" (names ("a" ∷ [])) ∷ produced "patternProperties" (names ("b" ∷ [])) ∷ []

abbrev index_records : List DependencyRecord
index_records = produced "prefixItems" (amount 1) ∷ produced "contains" (indexes (3 ∷ [])) ∷ []

fold_name_coverage-seen_names_example :
    seen_names (select_views context property_ids every name_records) []
    ≡ some (
        fold_name_coverage
          (harvest_coverage name_records (root_cursor 0 (string "instance")) property_ids)
          [])
unfolding select_views all_named property_ids
fold_name_coverage-seen_names_example =
    fold_name_coverage-seen_names context property_ids name_records refl

fold_index_coverage-cover_all_example :
    cover_all 5 (select_views context item_ids every index_records) nothing_covered
    ≡ some (
        fold_index_coverage 5
          (harvest_coverage index_records (root_cursor 0 (string "instance")) item_ids)
          nothing_covered)
unfolding select_views all_shaped item_ids
fold_index_coverage-cover_all_example =
    fold_index_coverage-cover_all 5 context item_ids index_records refl

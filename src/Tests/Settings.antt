-- ===== src/Tests/Settings.antt =====
-- A setting of a schema registry for tests, and a registration in it.
use Prim.Native.String.{◌++◌ as str_append}
use json_schema_engine.Base.{ℕ, ◌==◌, Option, none, some, String, str_eq, if◌then◌else◌}
use json_schema_engine.Json.{Json, Members, lookup}
use json_schema_engine.Schemas.Fallible.{Fallible, returns}
use json_schema_engine.Schemas.State.{Node, Setting, StaticFacts}
use json_schema_engine.Schemas.Facts.{Analysis, analyses}
use json_schema_engine.Schemas.Entries.{with_name, with_names, without_name, delete_entry}
use json_schema_engine.Schemas.Uri.{
  split_hash, resolve_uri, split_fragment, resolve_split, resolved_resource,
}
use json_schema_engine.Schemas.Stage.{
  check_base_id, dialect_uri_of, identify, resource_dialect, stage_resource, stage_anchor,
}
use json_schema_engine.Schemas.Walk.{
  hop, claim_anchors, claim_recursive, claim, add_pending, enter_resource, entered_by, entered,
  add_references, record_facts, follow_path, walk_positions, walk_facts, walk_analyzed, walk_found,
  walk_keyword, walk_keywords, walk_object, walk_value, walk_node, walk,
}
use json_schema_engine.Schemas.Commit.{
  owned_by, drop_resource, drop_owned, without_target, evict, write_resource, write_resources,
  absorbed, drop_absorbed, plain_refs, dynamic_refs, put_refs, write_anchors, both_have, write_ids,
  write_document, commit,
}
use json_schema_engine.Schemas.Locate.{split_slash}
use json_schema_engine.Schemas.Register.{
  DialectView, change_item, change_member, replace_at, masked, run_checks, check_retrieval, staged,
  apply, register, SchemaRegistry,
}
use json_schema_engine.Dialects.Identifiers.{identifiers2020}
use json_schema_engine.Dialects.{set_entry}

-- A fragment is put behind its base, and another text is a URI by itself.
abbrev joined : String → String → Option String
joined String.[] base = some base
joined (String.◌∷◌ c s) base =
    if str_eq (String.◌∷◌ c String.[]) "#"
    then some (str_append base (String.◌∷◌ c s))
    else some (String.◌∷◌ c s)

abbrev digit : ℕ → String
digit n = if n == 0 then "0" else "1"

abbrev from_digit : String → Option ℕ
from_digit s = if str_eq s "0" then some 0 else if str_eq s "1" then some 1 else none

abbrev analysis_of : Option Analysis → Option (Json → Members → Fallible StaticFacts)
analysis_of none = none
analysis_of (some a) = some (λ v schema. returns (a v schema))

unfoldable pub setting : Setting
unfolding analyses lookup
setting = record {
  parser = record { href = joined; decode_component = λ s. some s };
  index_text = digit;
  number_index = from_digit;
  analyze = λ b. analysis_of (lookup b.id analyses);
  screen = none;
  max_depth = 8;
  default_dialect_uri = "urn:d";
}

-- A registration without a location, a range lookup or a check.
unfoldable pub registering :
    DialectView → Node → String → SchemaRegistry → Fallible (String × SchemaRegistry)
unfolding setting lookup set_entry identifiers2020 with_name with_names without_name delete_entry
    split_hash resolve_uri split_fragment resolve_split resolved_resource check_base_id
    dialect_uri_of identify resource_dialect stage_resource stage_anchor hop claim_anchors
    claim_recursive claim add_pending enter_resource entered_by entered add_references record_facts
    follow_path walk_positions walk_facts walk_analyzed walk_found walk_keyword walk_keywords
    walk_object walk_value walk_node walk owned_by drop_resource drop_owned without_target evict
    write_resource write_resources absorbed drop_absorbed plain_refs dynamic_refs put_refs
    write_anchors both_have write_ids write_document commit split_slash change_item change_member
    replace_at masked run_checks check_retrieval staged apply register
registering view root uri r = register setting view root uri none none none r

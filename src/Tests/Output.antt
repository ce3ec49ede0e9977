-- ===== src/Tests/Output.antt =====
-- Documents and located trees at small evaluations.
use json_schema_engine.Base.{
  ℕ, Bool, List, ◌≡◌, ◌||◌, refl, true, false, none, some, [], ◌∷◌, map, filter, String,
}
use json_schema_engine.Json.{Json, null, lookup}
use json_schema_engine.Json.Pointer.{unescape_segment}
use json_schema_engine.Dialects.{set_entry}
use json_schema_engine.Cursor.{Cursor, root_cursor, SchemaRef}
use json_schema_engine.Engine.State.{
  PathNode, no_path, path_node, ErrorRecord, TraceNode, trace_node, no_trees, grow, KeywordTrace,
}
use json_schema_engine.Output.Located.{
  ErrorUnit, RenderNode, node, no_nodes, and_node, RenderInput, fields_of, pick, keyword_of,
  segments_below, first_segment_below,
}
use json_schema_engine.Output.Units.{
  omit, own_unit, render_list, is_mark, reports, errors_by_keyword,
}
use json_schema_engine.Output.Units.Listed.{render_list-applications, applications}
use json_schema_engine.Output.Detailed.{
  DetailedUnit, relevant, verbose, build_draft03_tree, render_detailed,
}
use json_schema_engine.Output.Detailed.Condensed.{render_detailed-condensed, IsCondensedRoot}
use json_schema_engine.Output.Detailed.Whole.{build_draft03_tree-whole, weigh, weigh_due}
use json_schema_engine.Output.Records.{
  add_position, index_from, RecordSets, render_error, to_render_node,
}
use json_schema_engine.Output.Records.Picked.{to_render_node-picks, at_node, path_of}
use json_schema_engine.Output.Records.Named.{keyword_of-render_error}

abbrev failing : String → Bool → KeywordTrace
failing name valid = record { name = name; valid = valid }

-- `{"required": ["b"], "properties": {"a": {"type": "string"}, "b": true}}`
abbrev member_node : String → Bool → List KeywordTrace → List ℕ → RenderNode
member_node path valid keywords errors =
    node
      record {
        evaluation_path = path;
        schema_location = "https://example.com/s#";
        input_location = "";
        valid = valid;
        keywords = keywords;
        errors = errors;
        dropped_errors = [];
        annotations = [];
        dropped_annotations = [];
      }
      no_nodes

abbrev tree : RenderNode
tree =
    node
      record {
        evaluation_path = "";
        schema_location = "https://example.com/s#";
        input_location = "";
        valid = false;
        keywords = failing "required" false ∷ failing "properties" false ∷ [];
        errors = 0 ∷ [];
        dropped_errors = [];
        annotations = [];
        dropped_annotations = [];
      }
      (and_node (member_node "/properties/a" false (failing "type" false ∷ []) (1 ∷ []))
        (and_node (member_node "/properties/b" true [] []) no_nodes))

abbrev error_at : String → String → ErrorUnit
error_at path message = record {
  evaluation_path = path;
  schema_location = "https://example.com/s#";
  input_location = "";
  error = message;
}

abbrev input : RenderInput Json
input = record {
  errors = error_at "/required" "b is missing" ∷ error_at "/properties/a/type" "not a string" ∷ [];
  dropped_errors = [];
  annotations = [];
  dropped_annotations = [];
  root = tree;
}

render_list-applications_example :
    (render_list input omit).details
    ≡ filter (λ u. is_mark omit || reports u) (map (own_unit input omit) (applications tree))
render_list-applications_example = render_list-applications input omit

build_draft03_tree-whole_example :
    weigh (λ f. 1) (build_draft03_tree input verbose) ≡ weigh_due (λ f. 1) input verbose tree
build_draft03_tree-whole_example = build_draft03_tree-whole (λ f. 1) input verbose

-- Three applications and three keyword evaluations.
six_units : weigh_due (λ f. 1) input verbose tree ≡ 6
unfolding weigh_due
six_units = refl

render_detailed-condensed_example :
    (d : DetailedUnit Json) × (render_detailed input ≡ some d)
    × IsCondensedRoot (build_draft03_tree input relevant) d
render_detailed-condensed_example = render_detailed-condensed input

decoded_path : segments_below "/properties/a~1b" "" ≡ "properties" ∷ "a/b" ∷ []
unfolding segments_below unescape_segment
decoded_path = refl

applying_keyword : first_segment_below "/items/anyOf/0" "/items" ≡ some "anyOf"
unfolding first_segment_below unescape_segment
applying_keyword = refl

-- Two failures of one keyword are joined.
joined_messages :
    errors_by_keyword (error_at "/required" "a" ∷ error_at "/required" "b" ∷ []) (fields_of tree)
    ≡ ("required", "a; b") ∷ []
unfolding errors_by_keyword keyword_of set_entry unescape_segment lookup
joined_messages = refl

abbrev schema : SchemaRef
schema = record { node = null; base_uri = "https://example.com/s"; pointer = "" }

abbrev instance_root : Cursor
instance_root = root_cursor 0 null

abbrev member_path : PathNode
member_path = path_node 5 no_path "properties"

abbrev failure : String → PathNode → ErrorRecord
failure name path = record {
  keyword_name = some name;
  vocabulary_uri = none;
  schema_ref = schema;
  path = path;
  cursor = instance_root;
  message = "refused";
  describe = none;
}

abbrev records : RecordSets
records = record {
  errors = failure "required" no_path ∷ failure "type" member_path ∷ failure "minimum" no_path ∷ [];
  dropped_errors = [];
  annotations = [];
  dropped_annotations = [];
}

abbrev traced : TraceNode
traced =
    trace_node schema no_path instance_root false []
      (grow no_trees (trace_node schema member_path instance_root false [] no_trees))

abbrev decimal : ℕ → String
decimal i = "0"

-- The first and the third error are those of the root.
root_errors : (fields_of (to_render_node decimal traced records)).errors ≡ 0 ∷ 2 ∷ []
unfolding to_render_node add_position index_from
root_errors = refl

to_render_node-picks_example :
    (pick
        (fields_of (to_render_node decimal traced records)).errors
        (map (λ r. r.message) records.errors)
      ≡ map (λ r. r.message) (at_node (λ r. r.path) (path_of traced) records.errors))
    × (pick
          (fields_of (to_render_node decimal traced records)).dropped_errors
          (map (λ r. r.message) records.dropped_errors)
        ≡ map (λ r. r.message) (at_node (λ r. r.path) (path_of traced) records.dropped_errors))
    × (pick
          (fields_of (to_render_node decimal traced records)).annotations
          (map (λ r. r.value) records.annotations)
        ≡ map (λ r. r.value) (at_node (λ r. r.path) (path_of traced) records.annotations))
    × (pick
          (fields_of (to_render_node decimal traced records)).dropped_annotations
          (map (λ r. r.value) records.dropped_annotations)
        ≡ map (λ r. r.value) (at_node (λ r. r.path) (path_of traced) records.dropped_annotations))
to_render_node-picks_example =
    to_render_node-picks decimal (λ r. r.message) (λ r. r.value) traced records

keyword_of-render_error_example :
    keyword_of
      (render_error decimal (λ r. r.message) (failure "a/b" no_path))
      (fields_of (to_render_node decimal traced records))
    ≡ "a/b"
keyword_of-render_error_example =
    keyword_of-render_error decimal (λ r. r.message) records traced (failure "a/b" no_path) refl

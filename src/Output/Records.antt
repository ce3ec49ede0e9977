-- ===== src/Output/Records.antt =====
-- packages/core/src/records.ts: the units of the interpreter's records, and the located tree of its
-- trace. `text` writes an index in decimal, and `message` is the text of an error, which messages.ts
-- builds where the record has a description. `errorParams` is off.
pub mod Named
pub mod Picked
use Prim.Native.String.{◌++◌ as concat}
use json_schema_engine.Base.{
  ℕ, ◌+◌, Bool, true, false, Option, none, some, List, [], ◌∷◌, ◌++◌, map, String, if◌then◌else◌,
}
use json_schema_engine.Json.{Json}
use json_schema_engine.Json.Pointer.{escape_segment}
use json_schema_engine.Cursor.{SchemaRef, Cursor, instance_pointer}
use json_schema_engine.Engine.State.{
  PathNode, same_path, materialize_path, ErrorRecord, AnnotationRecord, TraceNode, trace_node,
  TraceForest, no_trees, grow, KeywordTrace,
}
use json_schema_engine.Output.{Selection, no_annotations, all_annotations, selected, ResultUnits}
use json_schema_engine.Output.Located.{
  ErrorUnit, AnnotationUnit, AnnotationSelection, make_record_predicate, NodeFields, RenderNode,
  node, RenderNodes, no_nodes, and_node, RenderInput,
}

unfoldable pub keyword_suffix : Option String → String
unfolding escape_segment
keyword_suffix none = ""
keyword_suffix (some name) = concat "/" (escape_segment name)

unfoldable pub evaluation_path_of : PathNode → Option String → String
unfolding materialize_path keyword_suffix
evaluation_path_of path name = concat (materialize_path path) (keyword_suffix name)

unfoldable pub schema_location_of : SchemaRef → Option String → String
unfolding keyword_suffix
schema_location_of r name = concat r.base_uri (concat "#" (concat r.pointer (keyword_suffix name)))

-- The index lists of the records, by their path nodes.
abbrev pub Positions : Type 0
Positions = List (PathNode × List ℕ)

unfoldable pub add_position : PathNode → ℕ → Positions → Positions
add_position p i [] = (p, i ∷ []) ∷ []
add_position p i ((q, is) ∷ at) =
    let rest = add_position p i at in
    if same_path q p then (q, is ++ i ∷ []) ∷ at else (q, is) ∷ rest

-- `records.forEach((r, i) => …)`, from the position that comes next
unfoldable pub index_from : List PathNode → ℕ → Positions → Positions
index_from [] i at = at
index_from (p ∷ paths) i at = index_from paths (i + 1) (add_position p i at)

unfoldable pub index_by_path : List PathNode → Positions
unfolding index_from
index_by_path paths = index_from paths 0 []

-- `at.get(path) ?? NO_INDEXES`
unfoldable pub positions_at : PathNode → Positions → List ℕ
positions_at p [] = []
positions_at p ((q, is) ∷ at) = let later = positions_at p at in if same_path q p then is else later

-- `RecordSets`
pub record RecordSets : Type 0 where
  pub errors : List ErrorRecord
  pub dropped_errors : List ErrorRecord
  pub annotations : List AnnotationRecord
  pub dropped_annotations : List AnnotationRecord

abbrev pub error_paths : List ErrorRecord → List PathNode
error_paths rs = map (λ r. r.path) rs

abbrev pub annotation_paths : List AnnotationRecord → List PathNode
annotation_paths rs = map (λ r. r.path) rs

module _ (text : ℕ → String) (message : ErrorRecord → String) where
  unfoldable pub render_error : ErrorRecord → ErrorUnit
  unfolding evaluation_path_of schema_location_of instance_pointer
  render_error r = record {
    evaluation_path = evaluation_path_of r.path r.keyword_name;
    schema_location = schema_location_of r.schema_ref r.keyword_name;
    input_location = instance_pointer text r.cursor;
    error = message r;
  }

module _ (text : ℕ → String) where
  unfoldable pub render_annotation : AnnotationRecord → AnnotationUnit Json
  unfolding evaluation_path_of schema_location_of instance_pointer
  render_annotation r = record {
    keyword = r.keyword_name;
    vocabulary = r.vocabulary_uri;
    evaluation_path = evaluation_path_of r.path (some r.keyword_name);
    schema_location = schema_location_of r.schema_ref (some r.keyword_name);
    input_location = instance_pointer text r.cursor;
    annotation = r.value;
  }

  -- `keep` of a selection, which keeps every unit where there is none.
  abbrev pub keeps : Selection (AnnotationSelection Json) → AnnotationUnit Json → Bool
  keeps (selected s) u = elim s.keep [ none ↦ true | some keep ↦ keep u ]
  keeps _ u = true

  abbrev pub with_selected :
      AnnotationRecord
      → AnnotationUnit Json
      → List AnnotationRecord × List (AnnotationUnit Json)
      → List AnnotationRecord × List (AnnotationUnit Json)
  with_selected r u later = (r ∷ later.0, u ∷ later.1)

  unfoldable pub render_selected :
      List AnnotationRecord
      → Selection (AnnotationSelection Json)
      → List AnnotationRecord × List (AnnotationUnit Json)
  unfolding make_record_predicate render_annotation
  render_selected [] selection = ([], [])
  render_selected (r ∷ rs) selection =
      let later = render_selected rs selection in
      if make_record_predicate selection r.keyword_name r.vocabulary_uri
      then if keeps selection (render_annotation r)
        then with_selected r (render_annotation r) later
        else later
      else later

  module _ (records : RecordSets) where
    -- A node of the tree but its children.
    unfoldable pub located : SchemaRef → PathNode → Cursor → Bool → List KeywordTrace → NodeFields
    unfolding materialize_path schema_location_of instance_pointer index_by_path positions_at
    located r path cursor valid keywords = record {
      evaluation_path = materialize_path path;
      schema_location = schema_location_of r none;
      input_location = instance_pointer text cursor;
      valid = valid;
      keywords = keywords;
      errors = positions_at path (index_by_path (error_paths records.errors));
      dropped_errors = positions_at path (index_by_path (error_paths records.dropped_errors));
      annotations = positions_at path (index_by_path (annotation_paths records.annotations));
      dropped_annotations =
          positions_at path (index_by_path (annotation_paths records.dropped_annotations));
    }

    -- `toNode`; `later` are the children after those of a forest.
    unfoldable mutual
      unfolding located

      pub to_node : TraceNode → RenderNode
      to_node (trace_node r path cursor valid keywords children) =
          node (located r path cursor valid keywords) (to_nodes children no_nodes)

      pub to_nodes : TraceForest → RenderNodes → RenderNodes
      to_nodes no_trees later = later
      to_nodes (grow ts t) later = to_nodes ts (and_node (to_node t) later)

  unfoldable pub to_render_node : TraceNode → RecordSets → RenderNode
  unfolding to_node
  to_render_node root records = to_node records root

  unfoldable pub to_render_input :
      TraceNode → RecordSets → ResultUnits ErrorUnit (AnnotationUnit Json) → RenderInput Json
  unfolding to_render_node
  to_render_input root records units = record {
    errors = units.errors;
    dropped_errors = units.dropped_errors;
    annotations = units.annotations;
    dropped_annotations = units.dropped_annotations;
    root = to_render_node root records;
  }

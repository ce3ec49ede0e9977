-- ===== src/Output/Surface.antt =====
-- packages/core/src/output.ts: the public trace and the Basic document.
use json_schema_engine.Base.{ℕ, Bool, true, false, Option, none, some, List, [], ◌∷◌, map, String}
use json_schema_engine.Output.Located.{
  ErrorUnit, AnnotationUnit, NodeFields, RenderNode, node, RenderNodes, no_nodes, and_node,
  segments_below,
}

-- The fields of a `TraceUnit` but its children.
pub record TraceFields : Type 0 where
  pub segments : List String
  pub schema_location : String
  pub input_location : String
  pub valid : Bool
  pub error_indexes : List ℕ

mutual
  pub data TraceUnit : Type 0 where
    trace_unit : TraceFields → TraceUnits → TraceUnit

  pub data TraceUnits : Type 0 where
    no_traces : TraceUnits
    and_trace : TraceUnit → TraceUnits → TraceUnits

unfoldable pub trace_fields : NodeFields → String → TraceFields
unfolding segments_below
trace_fields n parent = record {
  segments = segments_below n.evaluation_path parent;
  schema_location = n.schema_location;
  input_location = n.input_location;
  valid = n.valid;
  error_indexes = n.errors;
}

unfoldable mutual
  unfolding trace_fields

  pub to_trace_unit : RenderNode → String → TraceUnit
  to_trace_unit (node n children) parent =
      trace_unit (trace_fields n parent) (to_trace_units children n.evaluation_path)

  pub to_trace_units : RenderNodes → String → TraceUnits
  to_trace_units no_nodes parent = no_traces
  to_trace_units (and_node n ns) parent =
      and_trace (to_trace_unit n parent) (to_trace_units ns parent)

unfoldable pub render_trace : RenderNode → TraceUnit
unfolding to_trace_unit
render_trace root = to_trace_unit root ""

-- `BasicErrorUnit` and `BasicAnnotationUnit`, by the type of what is found there.
pub record BasicUnit (A : Type 0) : Type 0 where
  pub keyword_location : String
  pub absolute_keyword_location : String
  pub instance_location : String
  pub found : A

pub record BasicOutputDocument (A : Type 0) : Type 0 where
  pub valid : Bool
  pub keyword_location : String
  pub absolute_keyword_location : String
  pub instance_location : String
  pub errors : Option (List (BasicUnit String))
  pub annotations : Option (List (BasicUnit A))

abbrev pub basic_error : ErrorUnit → BasicUnit String
basic_error e = record {
  keyword_location = e.evaluation_path;
  absolute_keyword_location = e.schema_location;
  instance_location = e.input_location;
  found = e.error;
}

module _ {A : Type 0} where
  abbrev pub basic_annotation : AnnotationUnit A → BasicUnit A
  basic_annotation a = record {
    keyword_location = a.evaluation_path;
    absolute_keyword_location = a.schema_location;
    instance_location = a.input_location;
    found = a.annotation;
  }

  abbrev pub basic_annotations : List (AnnotationUnit A) → Option (List (BasicUnit A))
  basic_annotations [] = none
  basic_annotations (a ∷ anns) = some (map basic_annotation (a ∷ anns))

  unfoldable pub render_basic :
      Bool → String → List ErrorUnit → List (AnnotationUnit A) → BasicOutputDocument A
  render_basic true location errors annotations = record {
    valid = true;
    keyword_location = "";
    absolute_keyword_location = location;
    instance_location = "";
    errors = none;
    annotations = basic_annotations annotations;
  }
  render_basic false location errors annotations = record {
    valid = false;
    keyword_location = "";
    absolute_keyword_location = location;
    instance_location = "";
    errors = some (map basic_error errors);
    annotations = none;
  }

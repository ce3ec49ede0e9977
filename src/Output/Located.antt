-- ===== src/Output/Located.antt =====
-- packages/core/src/output.ts: the flat surface and the located tree that the renderers read.
-- `A` is the type of an annotation's value. No document holds the fields that `errorParams` and
-- `positions` add to a unit of the flat surface, so these are not modelled.
use json_schema_engine.Base.{
  ℕ, Bool, true, false, not, ◌&&◌, ◌||◌, Option, none, some, List, [], ◌∷◌, ◌++◌, map, String,
  str_eq, if◌then◌else◌, get_elem?,
}
use json_schema_engine.Json.Pointer.{unescape_segment}
use json_schema_engine.Engine.State.{KeywordTrace}
use json_schema_engine.Schemas.Entries.{has_name}
use json_schema_engine.Output.{Selection, no_annotations, all_annotations, selected}
use json_schema_engine.Output.Texts.{path_length, drop_text, before_slash, split_segments}

pub record ErrorUnit : Type 0 where
  pub evaluation_path : String
  pub schema_location : String
  pub input_location : String
  pub error : String

pub record AnnotationUnit (A : Type 0) : Type 0 where
  pub keyword : String
  pub vocabulary : Option String
  pub evaluation_path : String
  pub schema_location : String
  pub input_location : String
  pub annotation : A

pub record AnnotationSelection (A : Type 0) : Type 0 where
  pub keywords : Option (List String)
  pub vocabularies : Option (List String)
  pub exclude_keywords : Option (List String)
  pub exclude_vocabularies : Option (List String)
  pub keep : Option (AnnotationUnit A → Bool)

abbrev pub or_empty : Option (List String) → List String
or_empty none = []
or_empty (some l) = l

-- `uri !== null && names.has(uri)`
abbrev pub has_uri : Option String → List String → Bool
has_uri none l = false
has_uri (some uri) l = has_name uri l

-- `allow === null`, where neither allow-list is given
unfoldable pub allowed : Option (List String) → Option (List String) → String → Option String → Bool
allowed none none keyword uri = true
allowed keywords vocabularies keyword uri =
    has_name keyword (or_empty keywords) || has_uri uri (or_empty vocabularies)

unfoldable pub make_record_predicate :
    {A : Type 0} → Selection (AnnotationSelection A) → String → Option String → Bool
unfolding allowed
make_record_predicate no_annotations keyword uri = false
make_record_predicate all_annotations keyword uri = true
make_record_predicate (selected s) keyword uri =
    allowed s.keywords s.vocabularies keyword uri
    && not (has_name keyword (or_empty s.exclude_keywords))
    && not (has_uri uri (or_empty s.exclude_vocabularies))

-- The fields of a `RenderNode` but its children.
pub record NodeFields : Type 0 where
  pub evaluation_path : String
  pub schema_location : String
  pub input_location : String
  pub valid : Bool
  pub keywords : List KeywordTrace
  pub errors : List ℕ
  pub dropped_errors : List ℕ
  pub annotations : List ℕ
  pub dropped_annotations : List ℕ

mutual
  pub data RenderNode : Type 0 where
    node : NodeFields → RenderNodes → RenderNode

  pub data RenderNodes : Type 0 where
    no_nodes : RenderNodes
    and_node : RenderNode → RenderNodes → RenderNodes

pub record RenderInput (A : Type 0) : Type 0 where
  pub errors : List ErrorUnit
  pub dropped_errors : List ErrorUnit
  pub annotations : List (AnnotationUnit A)
  pub dropped_annotations : List (AnnotationUnit A)
  pub root : RenderNode

abbrev pub fields_of : RenderNode → NodeFields
fields_of (node f children) = f

-- `indexes.map((i) => units[i]!)`; a producer's indexes are those of units, and one that is not
-- picks nothing here.
unfoldable pub pick : {T : Type 0} → List ℕ → List T → List T
pick [] units = []
pick (i ∷ indexes) units =
    let rest = pick indexes units in elim (get_elem? units i) [ none ↦ rest | some u ↦ u ∷ rest ]

unfoldable pub with_dropped : {T : Type 0} → List T → List T → List T
with_dropped [] dropped = dropped
with_dropped relevant [] = relevant
with_dropped relevant dropped = relevant ++ dropped

-- What follows a path of this length; the producer's paths extend one another.
unfoldable pub rest_after : String → String → String
unfolding path_length drop_text
rest_after path longer = drop_text (path_length path) longer

unfoldable pub keyword_of : ErrorUnit → NodeFields → String
unfolding rest_after drop_text
keyword_of u n =
    let rest = rest_after n.evaluation_path u.evaluation_path in
    if str_eq rest "" then "" else unescape_segment (drop_text 1 rest)

unfoldable pub segments_below : String → String → List String
unfolding rest_after drop_text split_segments
segments_below path parent =
    let rest = rest_after parent path in
    let parts = split_segments (drop_text 1 rest) in
    if str_eq rest "" then [] else map unescape_segment (parts.0 ∷ parts.1)

unfoldable pub first_segment_below : String → String → Option String
unfolding rest_after drop_text before_slash
first_segment_below path parent =
    let rest = rest_after parent path in
    if str_eq rest "" then none else some (unescape_segment (before_slash (drop_text 1 rest)))

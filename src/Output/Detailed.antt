-- ===== src/Output/Detailed.antt =====
-- packages/core/src/output.ts: the draft-03 keyword-level tree, Detailed and Verbose.
-- What is nested in a unit stands in its `errors` where the unit failed and in its `annotations`
-- where it did not, and is absent where it is empty.
pub mod Condensed
pub mod Whole
use Prim.Native.String.{◌++◌ as concat}
use json_schema_engine.Base.{
  ℕ, Bool, true, false, not, ◌&&◌, ◌||◌, Option, none, some, List, [], ◌∷◌, ◌++◌, map, filter,
  String, str_eq, if◌then◌else◌,
}
use json_schema_engine.Json.{is_some}
use json_schema_engine.Json.Pointer.{escape_segment}
use json_schema_engine.Engine.State.{KeywordTrace}
use json_schema_engine.Output.Texts.{join_semicolon}
use json_schema_engine.Output.Located.{
  ErrorUnit, AnnotationUnit, NodeFields, RenderNode, node, RenderNodes, no_nodes, and_node,
  RenderInput, fields_of, pick, with_dropped, first_segment_below,
}

-- The fields of a `DetailedOutputUnit` but what is nested in it.
pub record DetailedFields (A : Type 0) : Type 0 where
  pub valid : Bool
  pub keyword_location : String
  pub absolute_keyword_location : String
  pub instance_location : String
  pub error : Option String
  pub annotation : Option A

mutual
  pub data DetailedUnit (A : Type 0) : Type 0 where
    detailed_unit : DetailedFields A → DetailedUnits A → DetailedUnit A

  pub data DetailedUnits (A : Type 0) : Type 0 where
    no_detailed : DetailedUnits A
    and_detailed : DetailedUnit A → DetailedUnits A → DetailedUnits A

pub data Level : Type 0 where
  relevant verbose : Level

abbrev pub same_key : Option String → Option String → Bool
same_key none none = true
same_key (some j) (some k) = str_eq j k
same_key _ _ = false

-- `childrenOf`, its keys in the order of their first children
abbrev pub Groups : Type 0 → Type 0
Groups U = List (Option String × List U)

unfoldable pub add_child : {U : Type 0} → Option String → U → Groups U → Groups U
add_child k u [] = (k, u ∷ []) ∷ []
add_child k u ((j, us) ∷ groups) =
    let rest = add_child k u groups in
    if same_key j k then (j, us ++ u ∷ []) ∷ groups else (j, us) ∷ rest

unfoldable pub children_into : {U : Type 0} → List (Option String × U) → Groups U → Groups U
children_into [] groups = groups
children_into ((k, u) ∷ children) groups = children_into children (add_child k u groups)

-- `childrenOf.get(key)`, with nothing applied where there is no group
unfoldable pub applied_by : {U : Type 0} → Option String → Groups U → List U
applied_by k [] = []
applied_by k ((j, us) ∷ groups) =
    let later = applied_by k groups in if same_key j k then us else later

-- `childrenOf.delete(key)`; no key stands twice.
unfoldable pub without_group : {U : Type 0} → Option String → Groups U → Groups U
without_group k [] = []
without_group k ((j, us) ∷ groups) =
    let rest = without_group k groups in if same_key j k then groups else (j, us) ∷ rest

unfoldable pub strays : {U : Type 0} → Groups U → List U
strays [] = []
strays ((k, us) ∷ groups) = us ++ strays groups

-- `anns.find((a) => a.keyword === name)?.annotation`
unfoldable pub find_annotation : {A : Type 0} → String → List (AnnotationUnit A) → Option A
find_annotation name [] = none
find_annotation name (a ∷ anns) =
    if str_eq a.keyword name then some a.annotation else find_annotation name anns

unfoldable pub join_messages : List ErrorUnit → Option String
unfolding join_semicolon
join_messages [] = none
join_messages (e ∷ errs) = some (join_semicolon (map (λ x. x.error) (e ∷ errs)))

-- The messages of the errors at one evaluation path, where there are any.
unfoldable pub message_at : String → List ErrorUnit → Option String
unfolding join_messages
message_at path errs = join_messages (filter (λ e. str_eq e.evaluation_path path) errs)

abbrev pub nested : {A : Type 0} → List (DetailedUnit A) → DetailedUnits A
nested [] = no_detailed
nested (u ∷ us) = and_detailed u (nested us)

module _ {A : Type 0} (input : RenderInput A) (level : Level) where
  abbrev pub errors_at : NodeFields → List ErrorUnit
  errors_at n = elim level [
    | verbose ↦
        with_dropped (pick n.errors input.errors) (pick n.dropped_errors input.dropped_errors)
    | relevant ↦ pick n.errors input.errors
  ]

  abbrev pub annotations_at : NodeFields → List (AnnotationUnit A)
  annotations_at n = elim level [
    | verbose ↦
        with_dropped (pick n.annotations input.annotations)
          (pick n.dropped_annotations input.dropped_annotations)
    | relevant ↦ pick n.annotations input.annotations
  ]

  unfoldable pub application_fields : NodeFields → DetailedFields A
  unfolding message_at
  application_fields n = record {
    valid = n.valid;
    keyword_location = n.evaluation_path;
    absolute_keyword_location = n.schema_location;
    instance_location = n.input_location;
    error = message_at n.evaluation_path (errors_at n);
    annotation = none;
  }

  unfoldable pub keyword_fields : NodeFields → KeywordTrace → DetailedFields A
  unfolding message_at find_annotation
  keyword_fields n k =
      let suffix = concat "/" (escape_segment k.name) in
      record {
        valid = k.valid;
        keyword_location = concat n.evaluation_path suffix;
        absolute_keyword_location = concat n.schema_location suffix;
        instance_location = n.input_location;
        error = message_at (concat n.evaluation_path suffix) (errors_at n);
        annotation = find_annotation k.name (annotations_at n);
      }

  -- The loop over `node.keywords`, then the strays.
  unfoldable pub keyword_units :
      NodeFields → List KeywordTrace → Groups (DetailedUnit A) → List (DetailedUnit A)
  unfolding applied_by without_group strays keyword_fields
  keyword_units n [] groups = strays groups
  keyword_units n (k ∷ ks) groups =
      detailed_unit (keyword_fields n k) (nested (applied_by (some k.name) groups))
      ∷ keyword_units n ks (without_group (some k.name) groups)

  -- `build`: a child is built before its place in its parent is known.
  unfoldable mutual
    unfolding application_fields keyword_units children_into

    pub build : RenderNode → DetailedUnit A
    build (node n children) = detailed_unit (application_fields n) (
        nested (
          keyword_units n n.keywords
            (children_into (build_children n.evaluation_path children) [])))

    pub build_children : String → RenderNodes → List (Option String × DetailedUnit A)
    build_children path no_nodes = []
    build_children path (and_node c cs) =
        (first_segment_below (fields_of c).evaluation_path path, build c) ∷ build_children path cs

  unfoldable pub build_draft03_tree : DetailedUnit A
  unfolding build
  build_draft03_tree = build input.root

module _ {A : Type 0} where
  abbrev pub is_local : DetailedFields A → Bool
  is_local f = is_some f.error || is_some f.annotation

  abbrev pub and_condensed : Option (DetailedUnit A) → DetailedUnits A → DetailedUnits A
  and_condensed none us = us
  and_condensed (some u) us = and_detailed u us

  abbrev pub only_one : DetailedFields A → DetailedUnits A → Option (DetailedUnit A)
  only_one f no_detailed = none
  only_one f (and_detailed u no_detailed) = some u
  only_one f (and_detailed u (and_detailed v us)) =
      some (detailed_unit f (and_detailed u (and_detailed v us)))

  unfoldable mutual
    pub condense : DetailedUnit A → Bool → Option (DetailedUnit A)
    condense (detailed_unit f us) is_root =
        let inner = condense_all us in
        if not (is_local f) && not is_root then only_one f inner else some (detailed_unit f inner)

    pub condense_all : DetailedUnits A → DetailedUnits A
    condense_all no_detailed = no_detailed
    condense_all (and_detailed u us) = and_condensed (condense u false) (condense_all us)

  -- `condense(…)!`
  unfoldable pub render_detailed : RenderInput A → Option (DetailedUnit A)
  unfolding condense
  render_detailed input = condense (build_draft03_tree input relevant) true

  unfoldable pub render_verbose : RenderInput A → DetailedUnit A
  unfolding build_draft03_tree
  render_verbose input = build_draft03_tree input verbose

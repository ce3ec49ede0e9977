-- ===== src/Output/Units.antt =====
-- packages/core/src/output.ts: the documents of the machines-oriented proposal, and Basic.
-- A record by keyword is a list in the order in which its names are first set; `details` that are
-- absent are empty.
pub mod Listed
use Prim.Native.String.{◌++◌ as concat}
use json_schema_engine.Base.{
  ℕ, Bool, true, false, not, ◌&&◌, ◌||◌, Option, none, some, List, [], ◌∷◌, ◌++◌, map, String,
  if◌then◌else◌,
}
use json_schema_engine.Json.{lookup, is_some}
use json_schema_engine.Dialects.{set_entry}
use json_schema_engine.Output.Located.{
  ErrorUnit, AnnotationUnit, NodeFields, RenderNode, node, RenderNodes, no_nodes, and_node,
  RenderInput, fields_of, pick, keyword_of,
}

-- The fields of an `OutputUnit` but its details.
pub record UnitFields (A : Type 0) : Type 0 where
  pub valid : Bool
  pub evaluation_path : String
  pub schema_location : String
  pub instance_location : String
  pub errors : Option (List (String × String))
  pub annotations : Option (List (String × A))
  pub dropped_errors : Option (List (String × String))
  pub dropped_annotations : Option (List (String × A))

mutual
  pub data OutputUnit (A : Type 0) : Type 0 where
    output_unit : UnitFields A → OutputUnits A → OutputUnit A

  pub data OutputUnits (A : Type 0) : Type 0 where
    no_units : OutputUnits A
    and_unit : OutputUnit A → OutputUnits A → OutputUnits A

pub record ListOutputDocument (A : Type 0) : Type 0 where
  pub valid : Bool
  pub details : List (UnitFields A)

pub data IrrelevantRendering : Type 0 where
  omit mark : IrrelevantRendering

abbrev pub is_mark : IrrelevantRendering → Bool
is_mark omit = false
is_mark mark = true

abbrev pub joined : Option String → String → String
joined none message = message
joined (some prior) message = concat prior (concat "; " message)

unfoldable pub errors_into :
    List ErrorUnit → NodeFields → List (String × String) → List (String × String)
errors_into [] n found = found
errors_into (e ∷ errs) n found =
    let key = keyword_of e n in
    errors_into errs n (set_entry key (joined (lookup key found) e.error) found)

unfoldable pub errors_by_keyword : List ErrorUnit → NodeFields → List (String × String)
unfolding errors_into
errors_by_keyword errs n = errors_into errs n []

-- Of several annotations under one name the last stands.
unfoldable pub annotations_into :
    {A : Type 0} → List (AnnotationUnit A) → List (String × A) → List (String × A)
annotations_into [] found = found
annotations_into (a ∷ anns) found = annotations_into anns (set_entry a.keyword a.annotation found)

unfoldable pub annotations_by_keyword : {A : Type 0} → List (AnnotationUnit A) → List (String × A)
unfolding annotations_into
annotations_by_keyword anns = annotations_into anns []

-- A record that is set only where there is something to set it to.
abbrev pub unless_empty : {T R : Type 0} → (List T → R) → List T → Option R
unless_empty f [] = none
unless_empty f (u ∷ us) = some (f (u ∷ us))

abbrev pub if_mark : {R : Type 0} → IrrelevantRendering → Option R → Option R
if_mark omit r = none
if_mark mark r = r

abbrev pub no_details : {A : Type 0} → OutputUnits A → Bool
no_details no_units = true
no_details (and_unit u us) = false

abbrev pub reports : {A : Type 0} → UnitFields A → Bool
reports u = is_some u.errors || is_some u.annotations

abbrev pub and_some : {A : Type 0} → Option (OutputUnit A) → OutputUnits A → OutputUnits A
and_some none us = us
and_some (some u) us = and_unit u us

-- `unitOf`
abbrev pub bare_unit : {A : Type 0} → NodeFields → UnitFields A
bare_unit n = record {
  valid = n.valid;
  evaluation_path = n.evaluation_path;
  schema_location = n.schema_location;
  instance_location = n.input_location;
  errors = none;
  annotations = none;
  dropped_errors = none;
  dropped_annotations = none;
}

module _ {A : Type 0} (input : RenderInput A) (irrelevant : IrrelevantRendering) where
  -- The unit of a node before it has details.
  unfoldable pub own_unit : NodeFields → UnitFields A
  own_unit n = record {
    valid = n.valid;
    evaluation_path = n.evaluation_path;
    schema_location = n.schema_location;
    instance_location = n.input_location;
    errors = unless_empty (λ errs. errors_by_keyword errs n) (pick n.errors input.errors);
    annotations = unless_empty annotations_by_keyword (pick n.annotations input.annotations);
    dropped_errors = if_mark irrelevant (
        unless_empty (λ errs. errors_by_keyword errs n)
          (pick n.dropped_errors input.dropped_errors));
    dropped_annotations = if_mark irrelevant (
        unless_empty annotations_by_keyword (pick n.dropped_annotations input.dropped_annotations));
  }

  -- The end of `toUnit`: a unit is left out where it carries nothing relevant.
  unfoldable pub keep_unit : UnitFields A → OutputUnits A → Option (OutputUnit A)
  keep_unit u details =
      if not (is_mark irrelevant) && not (reports u) && no_details details
      then none
      else some (output_unit u details)

  unfoldable mutual
    unfolding own_unit keep_unit

    pub to_unit : RenderNode → Option (OutputUnit A)
    to_unit (node n children) = keep_unit (own_unit n) (to_units children)

    pub to_units : RenderNodes → OutputUnits A
    to_units no_nodes = no_units
    to_units (and_node n ns) = and_some (to_unit n) (to_units ns)

  abbrev pub or_bare : Option (OutputUnit A) → NodeFields → OutputUnit A
  or_bare none n = output_unit (bare_unit n) no_units
  or_bare (some u) n = u

  unfoldable pub render_hierarchical : OutputUnit A
  unfolding to_unit
  render_hierarchical = or_bare (to_unit input.root) (fields_of input.root)

  abbrev pub listed_unit : UnitFields A → List (UnitFields A)
  listed_unit u = if is_mark irrelevant || reports u then u ∷ [] else []

  unfoldable mutual
    pub collect : OutputUnit A → List (UnitFields A)
    collect (output_unit u details) = listed_unit u ++ collect_all details

    pub collect_all : OutputUnits A → List (UnitFields A)
    collect_all no_units = []
    collect_all (and_unit u us) = collect u ++ collect_all us

  unfoldable pub render_list : ListOutputDocument A
  unfolding render_hierarchical collect
  render_list = record {
    valid = (fields_of input.root).valid;
    details = collect render_hierarchical;
  }

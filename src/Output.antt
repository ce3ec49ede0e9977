-- ===== src/Output.antt =====
-- packages/core/src/result.ts: the output options, and what a result carries. A result
-- names the renderer of its document and what it is given; the renderers are in modules below.
pub mod Detailed
pub mod Located
pub mod Records
pub mod Safe
pub mod Surface
pub mod Texts
pub mod Units
use json_schema_engine.Base.{
  ℕ, Bool, true, false, ◌&&◌, ◌||◌, not, List, [], ◌∷◌, String, str_eq, Option, none, some,
  if◌then◌else◌, any,
}

pub data OutputFormat : Type 0 where
  flag basic detailed verbose_format list hierarchical : OutputFormat

-- `annotations`: none, all, or a selection.
pub data Selection (A : Type 0) : Type 0 where
  no_annotations all_annotations : Selection A
  selected : A → Selection A

-- A member that may be absent is an option.
pub record EvaluateOptions (A : Type 0) : Type 0 where
  pub output : Option String
  pub verbose : Option Bool
  pub annotations : Option (Selection A)
  pub error_params : Option Bool
  pub positions : Option Bool
  pub trace : Option Bool

pub record OutputDemand (A : Type 0) : Type 0 where
  pub format : OutputFormat
  pub verbose : Bool
  pub tracing : Bool
  pub annotations : Selection A

-- `OutputOptionsError`, by the check that throws it.
pub data OutputOptionsError : Type 0 where
  unknown_format : String → OutputOptionsError
  no_effect : String → OutputOptionsError
  relevant_level : OutputFormat → OutputOptionsError
  verbose_contradicted : OutputOptionsError

pub data Resolved (A : Type 0) : Type 0 where
  demand : OutputDemand A → Resolved A
  refused : OutputOptionsError → Resolved A

-- `OUTPUT_FORMATS.has(format)`
unfoldable pub parse_format : String → Option OutputFormat
parse_format s =
    if str_eq s "flag"
    then some flag
    else if str_eq s "basic"
    then some basic
    else if str_eq s "detailed"
    then some detailed
    else if str_eq s "verbose"
    then some verbose_format
    else if str_eq s "list"
    then some list
    else if str_eq s "hierarchical"
    then some hierarchical
    else none

-- `x === true` and `x === false` of an optional flag
abbrev pub is_on : Option Bool → Bool
is_on (some b) = b
is_on none = false

abbrev pub is_off : Option Bool → Bool
is_off (some b) = not b
is_off none = false

abbrev pub is_flag : OutputFormat → Bool
is_flag flag = true
is_flag _ = false

abbrev pub is_basic : OutputFormat → Bool
is_basic basic = true
is_basic _ = false

abbrev pub is_detailed : OutputFormat → Bool
is_detailed detailed = true
is_detailed _ = false

abbrev pub is_verbose : OutputFormat → Bool
is_verbose verbose_format = true
is_verbose _ = false

-- `options.output ?? "flag"` and `options.annotations ?? false`
abbrev pub or_flag : Option String → String
or_flag none = "flag"
or_flag (some s) = s

-- The first control that is on of those that `flag` has no use for.
unfoldable pub first_on : List (String × Bool) → Option String
first_on [] = none
first_on ((name, b) ∷ rest) = let later = first_on rest in if b then some name else later

module _ {A : Type 0} where
  abbrev pub or_none : Option (Selection A) → Selection A
  or_none none = no_annotations
  or_none (some a) = a

  abbrev pub wants : Selection A → Bool
  wants no_annotations = false
  wants _ = true

  unfoldable pub flag_controls : EvaluateOptions A → List (String × Bool)
  flag_controls o =
      ("verbose", is_on o.verbose)
      ∷ ("annotations", wants (or_none o.annotations))
      ∷ ("errorParams", is_on o.error_params)
      ∷ ("positions", is_on o.positions)
      ∷ ("trace", is_on o.trace)
      ∷ []

  -- The checks on an option record with a known format.
  unfoldable pub options_error : OutputFormat → EvaluateOptions A → Option OutputOptionsError
  unfolding first_on flag_controls
  options_error f o = elim (if is_flag f then first_on (flag_controls o) else none) [
    | some name ↦ some (no_effect name)
    | none ↦
        if is_on o.verbose && (is_basic f || is_detailed f)
        then some (relevant_level f)
        else if is_off o.verbose && is_verbose f
        then some verbose_contradicted
        else none
  ]

  abbrev pub demand_of : OutputFormat → EvaluateOptions A → OutputDemand A
  demand_of f o = record {
    format = f;
    verbose = is_verbose f || is_on o.verbose;
    tracing = not (is_flag f) && (not (is_basic f) || is_on o.trace);
    annotations = or_none o.annotations;
  }

  abbrev pub unless : Option OutputOptionsError → OutputDemand A → Resolved A
  unless none d = demand d
  unless (some e) d = refused e

  -- `resolveOutputDemand`
  unfoldable pub resolve_output_demand : EvaluateOptions A → Resolved A
  unfolding parse_format options_error
  resolve_output_demand o = elim (parse_format (or_flag o.output)) [
    | none ↦ refused (unknown_format (or_flag o.output))
    | some f ↦ unless (options_error f o) (demand_of f o)
  ]

-- `ResultUnits`; the units are those of the flat surface.
pub record ResultUnits (E N : Type 0) : Type 0 where
  pub errors : List E
  pub dropped_errors : List E
  pub annotations : List N
  pub dropped_annotations : List N

-- What a document is rendered from, by the renderer that output.ts applies to it.
pub data Document (E N R : Type 0) : Type 0 where
  basic_document : Bool → String → List E → List N → Document E N R
  list_document hierarchical_document : ResultUnits E N → R → Bool → Document E N R
  detailed_document verbose_document : ResultUnits E N → R → Document E N R

-- `Result`; the trace is rendered from the tree.
pub record Assembled (E N R : Type 0) : Type 0 where
  pub valid : Bool
  pub errors : Option (List E)
  pub annotations : Option (List N)
  pub dropped_errors : Option (List E)
  pub dropped_annotations : Option (List N)
  pub document : Option (Document E N R)
  pub trace : Option R

abbrev pub only_if {ℓ} : {A : Type ℓ} → Bool → A → Option A
only_if true a = some a
only_if false a = none

-- The `switch`; a renderer of the located tree throws where there is no tree.
unfoldable pub render :
    {E N R : Type 0}
    → OutputFormat
    → Bool
    → Bool
    → ResultUnits E N
    → String
    → Option R
    → Option (Option (Document E N R))
render flag valid mark units location root = some none
render basic valid mark units location root =
    some (some (basic_document valid location units.errors units.annotations))
render list valid mark units location (some r) = some (some (list_document units r mark))
render hierarchical valid mark units location (some r) =
    some (some (hierarchical_document units r mark))
render detailed valid mark units location (some r) = some (some (detailed_document units r))
render verbose_format valid mark units location (some r) = some (some (verbose_document units r))
render _ valid mark units location none = none

-- `input!.root`, where a trace is asked for
unfoldable pub rendered_trace : {R : Type 0} → Bool → Option R → Option (Option R)
rendered_trace false input = some none
rendered_trace true none = none
rendered_trace true (some r) = some (some r)

abbrev pub input_root : {A R : Type 0} → OutputDemand A → Option R → Option R
input_root d root = if d.tracing then root else none

abbrev pub bare : {E N R : Type 0} → Bool → Assembled E N R
bare valid = record {
  valid = valid;
  errors = none;
  annotations = none;
  dropped_errors = none;
  dropped_annotations = none;
  document = none;
  trace = none;
}

abbrev pub surface_of :
    {A E N R : Type 0}
    → OutputDemand A
    → Bool
    → ResultUnits E N
    → Option R
    → Option (Document E N R)
    → Assembled E N R
surface_of d valid units traced document = record {
  valid = valid;
  errors = only_if (not valid) units.errors;
  annotations = only_if (valid && wants d.annotations) units.annotations;
  dropped_errors = only_if d.verbose units.dropped_errors;
  dropped_annotations = only_if (d.verbose && wants d.annotations) units.dropped_annotations;
  document = document;
  trace = traced;
}

-- `assembleResult`; `none` is the exception of a missing tree.
unfoldable pub assemble_result :
    {A E N R : Type 0}
    → OutputDemand A
    → Bool
    → ResultUnits E N
    → Option R
    → String
    → Bool
    → Option (Assembled E N R)
unfolding render rendered_trace
assemble_result d valid units root location trace =
    if is_flag d.format
    then some (bare valid)
    else elim (rendered_trace trace (input_root d root)) [
      | none ↦ none
      | some traced ↦ elim (render d.format valid d.verbose units location (input_root d root)) [
        | none ↦ none
        | some document ↦ some (surface_of d valid units traced document)
      ]
    ]

-- ===== src/Output/Safe.antt =====
-- packages/core/src/result.ts: the assembly of a result for accepted options.
use json_schema_engine.Base.{
  ◌≡◌, refl, sym, ◌∙◌, Bool, true, String, Option, none, some, if◌then◌else◌, arith, Option-cases,
  Bool-cases, inl, inr,
}
use mathlib.Core.Path.{subst}
use json_schema_engine.Json.{is_some}
use json_schema_engine.Output.{
  OutputFormat, flag, basic, detailed, verbose_format, list, hierarchical, EvaluateOptions,
  OutputDemand, OutputOptionsError, demand, refused, ResultUnits, resolve_output_demand, demand_of,
  unless, options_error, parse_format, or_flag, assemble_result, render, rendered_trace, is_on,
}

abbrev is_trace : {A : Type 0} → EvaluateOptions A → Bool
is_trace o = is_on o.trace

-- The demand of accepted options is the one of some format and no check refused them.
record Accepted {A : Type 0} (o : EvaluateOptions A) (d : OutputDemand A) : Type 0 where
  form : OutputFormat
  whole : demand_of form o ≡ d
  checked : options_error form o ≡ none

unless-Accepted :
    {A : Type 0} (o : EvaluateOptions A) (d : OutputDemand A) (f : OutputFormat)
    (r : Option OutputOptionsError)
    → options_error f o ≡ r
    → unless r (demand_of f o) ≡ demand d
    → Accepted o d
unless-Accepted o d f none e h = record { form = f; whole = cc; checked = e }
unless-Accepted o d f (some x) e h = cc

known_format :
    {A : Type 0} (o : EvaluateOptions A) (f : OutputFormat)
    → parse_format (or_flag o.output) ≡ some f
    → resolve_output_demand o ≡ unless (options_error f o) (demand_of f o)
unfolding resolve_output_demand
known_format o f e = rw (e, resolve_output_demand) refl

accepted :
    {A : Type 0} (o : EvaluateOptions A) (d : OutputDemand A)
    → resolve_output_demand o ≡ demand d
    → Accepted o d
unfolding resolve_output_demand
accepted o d h = elim (Option-cases (parse_format (or_flag o.output))) [
  | inl e ↦
      let unknown : resolve_output_demand o
          ≡ refused (OutputOptionsError.unknown_format (or_flag o.output)) =
        rw (e, resolve_output_demand) refl in
      cc
  | inr (f, e) ↦ unless-Accepted o d f (options_error f o) refl (sym (known_format o f e) ∙ h)
]

assembled :
    {A E N R : Type 0} (o : EvaluateOptions A) (f : OutputFormat) (valid : Bool)
    (units : ResultUnits E N) (root : R) (location : String)
    → is_some (
        assemble_result
          (demand_of f o)
          valid
          units
          (if (demand_of f o).tracing then some root else none)
          location
          (is_trace o))
      ≡ true
unfolding assemble_result render rendered_trace
assembled o flag valid units root location = refl
assembled o basic valid units root location = elim (Bool-cases (is_trace o)) [
  | inl e ↦ ground (arith, e)
  | inr e ↦ ground (arith, e)
]
assembled o detailed valid units root location = ground arith
assembled o verbose_format valid units root location = ground arith
assembled o list valid units root location = ground arith
assembled o hierarchical valid units root location = ground arith

-- Options that `resolveOutputDemand` accepts never lead `assembleResult` to a missing tree: where
-- the demand asks for a tree and one is given, a result comes out, with the trace asked for or not.
pub assemble_result_total :
    {A E N R : Type 0} (o : EvaluateOptions A) (d : OutputDemand A) (valid : Bool)
    (units : ResultUnits E N) (root : R) (location : String)
    → resolve_output_demand o ≡ demand d
    → is_some (
        assemble_result d valid units (if d.tracing then some root else none) location (is_trace o))
      ≡ true
assemble_result_total o d valid units root location h =
    let a = accepted o d h in
    subst
      (λ y.
        is_some (
          assemble_result y valid units (if y.tracing then some root else none) location
            (is_trace o))
        ≡ true)
      a.whole (assembled o a.form valid units root location)

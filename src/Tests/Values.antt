-- ===== src/Tests/Values.antt =====
-- Values, texts, numbers and output options.
use json_schema_engine.Base.{ℕ, ◌≡◌, refl, true, false, none, some, [], ◌∷◌, ◌&&◌, not, leb}
use json_schema_engine.Json.{
  Double, boolean, string, null, object, array, nil, cons, end, member, is_some, lookup,
}
use json_schema_engine.Json.Pointer.{escape_segment, unescape_segment}
use json_schema_engine.Json.Pointer.RoundTrip.{unescape_segment-escape_segment}
use json_schema_engine.Json.Number.{number_lt, number_le, is_nan}
use json_schema_engine.Json.Number.Order.{number_le_complement, number_lt_trans}
use json_schema_engine.Json.Length.{code_point_length, utf16}
use json_schema_engine.Json.Length.Bounds.{lowered_lengths_agree, below_least, above_most}
use json_schema_engine.Json.Equal.{json_equal}
use json_schema_engine.Json.Equal.Reflexive.{json_equal_refl, well_formed}
use json_schema_engine.Keywords.Required.{dependency_absent, missing_dependencies, no_pair}
use json_schema_engine.Keywords.Lowered.{dependencies_agree}
use json_schema_engine.Output.{
  EvaluateOptions, resolve_output_demand, assemble_result, demand_of, basic, all_annotations,
  ResultUnits,
}
use json_schema_engine.Output.Safe.{assemble_result_total}

escaped : escape_segment "a/b~c" ≡ "a~1b~0c"
unfolding escape_segment
escaped = refl

slash_kept : unescape_segment (escape_segment "a/b~1") ≡ "a/b~1"
slash_kept = unescape_segment-escape_segment "a/b~1"

-- 1, 2 and 4
abbrev one_double : Double
one_double = record { negative = false; exponent = 1023; fraction = 0 }

abbrev two_double : Double
two_double = record { negative = false; exponent = 1024; fraction = 0 }

abbrev four_double : Double
four_double = record { negative = false; exponent = 1025; fraction = 0 }

one_and_two :
    number_le one_double two_double
    ≡ (not (is_nan one_double) && not (is_nan two_double) && not (number_lt two_double one_double))
one_and_two = number_le_complement one_double two_double

one_below_four : number_lt one_double four_double ≡ true
unfolding number_lt
one_below_four = number_lt_trans one_double two_double four_double refl refl

-- U+1F600 takes two units and counts once.
counted : code_point_length (utf16 (0x61 ∷ 0x1f600 ∷ [])) ≡ 2
unfolding code_point_length utf16
counted = refl

lowered_lengths_agree_example :
    (below_least 2 (0xd83d ∷ 0xde00 ∷ []) ≡ not (leb 2 (code_point_length (0xd83d ∷ 0xde00 ∷ []))))
    × (above_most 2 (0xd83d ∷ 0xde00 ∷ []) ≡ not (leb (code_point_length (0xd83d ∷ 0xde00 ∷ [])) 2))
lowered_lengths_agree_example = lowered_lengths_agree 2 (0xd83d ∷ 0xde00 ∷ [])

members_equal :
    json_equal
      (object (member "a" null (member "b" (boolean true) end)))
      (object (member "a" null (member "b" (boolean true) end)))
    ≡ true
unfolding well_formed
members_equal = json_equal_refl (object (member "a" null (member "b" (boolean true) end))) refl

order_insignificant :
    json_equal
      (object (member "a" null (member "b" (boolean true) end)))
      (object (member "b" (boolean true) (member "a" null end)))
    ≡ true
unfolding json_equal lookup
order_insignificant = refl

dependency_tests :
    dependency_absent (("a", null) ∷ []) (("a", array (cons (string "b") nil)) ∷ [])
    ≡ not (
        no_pair
          (missing_dependencies (("a", null) ∷ []) (("a", array (cons (string "b") nil)) ∷ [])))
dependency_tests = dependencies_agree (("a", null) ∷ []) (("a", array (cons (string "b") nil)) ∷ [])

abbrev with_trace : EvaluateOptions ℕ
with_trace = record {
  output = some "basic";
  verbose = none;
  annotations = some all_annotations;
  error_params = none;
  positions = none;
  trace = some true;
}

abbrev tree : ℕ
tree = 7

abbrev units : ResultUnits ℕ ℕ
units = record { errors = []; dropped_errors = []; annotations = 1 ∷ []; dropped_annotations = [] }

assemble_result_total_example :
    is_some (
      assemble_result
        (demand_of basic with_trace)
        true
        units
        (some tree)
        "https://example.com/s"
        true)
    ≡ true
unfolding resolve_output_demand
assemble_result_total_example =
    assemble_result_total with_trace (demand_of basic with_trace) true units tree
      "https://example.com/s" refl

-- ===== src/Tests/Oracles.antt =====
-- An oracle for the parts of the document: what the engine returns for an application of each.
use json_schema_engine.Base.{
  none, ◌≡◌, refl, sym, true, false, List, [], ◌∷◌, String, ok, any, str_eq,
}
use mathlib.Core.Path.{subst}
use json_schema_engine.Json.{Json, string}
use json_schema_engine.Cursor.{Cursor, Segment, value, ref_key}
use json_schema_engine.Engine.State.{PathNode, EvalState}
use json_schema_engine.Engine.Program.{KeywordBehavior}
use json_schema_engine.Engine.Context.{member_of, consumption_error}
use json_schema_engine.Engine.Apply.{apply_schema}
use json_schema_engine.Engine.Contract.{apply_schema-Settled}
use json_schema_engine.Keywords.InPlace.{
  applicator_id, all_of, any_of, one_of, not_keyword, then_keyword, dependent_schemas,
}
use json_schema_engine.Keywords.Object.{
  properties, pattern_properties, additional_properties, property_names,
}
use json_schema_engine.Keywords.Array.{prefix_items, items, contains}
use json_schema_engine.Keywords.Unevaluated.{
  unevaluated_id, property_ids, item_ids, unevaluated_properties, unevaluated_items,
}
use json_schema_engine.Keywords.Validation.{type_keyword, type_matches}
use json_schema_engine.Keywords.Yields.{Oracle, Situated, declares}
use json_schema_engine.Tests.Document.{
  same_segments, dialect, lookups, environment, start, context, paths, part_of, verdicts,
}
use json_schema_engine.Tests.Listed.{Each, listed, part_there}
use json_schema_engine.Tests.Applied.{text_part, false_part, text_applied, false_applied}

pub part_applied :
    (v : Json) (segs : List Segment)
    → any (same_segments segs) paths ≡ true
    → (c : Cursor) (p : PathNode) (s : EvalState) → Situated (start v) s
    → (apply_schema environment 7 (part_of segs) c p s).0 ≡ ok (verdicts segs (value c))
unfolding ref_key Each verdicts same_segments part_of dialect all_of any_of one_of not_keyword
    then_keyword dependent_schemas properties pattern_properties additional_properties
    property_names prefix_items items contains unevaluated_properties unevaluated_items type_keyword
part_applied v segs =
    listed
      (λ t.
        (c : Cursor) (p : PathNode) (s : EvalState)
        → Situated (start v) s
        → (apply_schema environment 7 (part_of t) c p s).0 ≡ ok (verdicts t (value c)))
      segs paths
      (
        text "/allOf/0" refl,
        (
          refused "/allOf/1",
          (
            refused "/anyOf/0",
            (
              text "/anyOf/1" refl,
              (
                refused "/oneOf/0",
                (
                  text "/oneOf/1" refl,
                  (
                    text "/not" refl,
                    (
                      text "/then" refl,
                      (
                        text "/dependentSchemas/a" refl,
                        (
                          text "/properties/a" refl,
                          (
                            text "/patternProperties/b" refl,
                            (
                              text "/additionalProperties" refl,
                              (
                                text "/propertyNames" refl,
                                (
                                  text "/prefixItems/0" refl,
                                  (
                                    refused "/prefixItems/1",
                                    (
                                      text "/items" refl,
                                      (
                                        text "/contains" refl,
                                        (
                                          text "/unevaluatedProperties" refl,
                                          (text "/unevaluatedItems" refl, tt),
                                        ),
                                      ),
                                    ),
                                  ),
                                ),
                              ),
                            ),
                          ),
                        ),
                      ),
                    ),
                  ),
                ),
              ),
            ),
          ),
        ),
      )
  where
    text :
        (pointer : String)
        → str_eq "urn:a#" (ref_key (text_part pointer)) ≡ false
        → (c : Cursor) (p : PathNode) (s : EvalState) → Situated (start v) s
        → (apply_schema environment 7 (text_part pointer) c p s).0
          ≡ ok (type_matches (string "string") (value c))
    text pointer other c p s q = text_applied v pointer c p s other q

    refused :
        (pointer : String) (c : Cursor) (p : PathNode) (s : EvalState)
        → Situated (start v) s
        → (apply_schema environment 7 (false_part pointer) c p s).0 ≡ ok false
    refused pointer c p s q = false_applied v pointer c p s q

-- The oracle for the parts of the document, in an evaluation of any keyword at an instance.
unfoldable pub oracle :
    (name : String) (b : KeywordBehavior) (keyword_value v : Json)
    → Oracle environment
        (apply_schema environment 7)
        (context name b keyword_value v)
        (start v)
        verdicts
unfolding environment lookups
oracle name b keyword_value v = record {
  progresses = λ r c p s. (apply_schema-Settled environment 7 r c p s).progress;
  claimed = λ segs. any (same_segments segs) paths;
  target = part_of;
  finds = part_there;
  answers = λ segs c p s claim q. part_applied v segs claim c p s q;
  compilable = λ p. true;
  regex = λ p s. str_eq p s;
  compiles = λ p good. refl;
}

-- The identifiers that the registration lists: those of the keywords that produce data.
abbrev pub produced : List String
produced =
    applicator_id "properties"
    ∷ applicator_id "patternProperties"
    ∷ applicator_id "additionalProperties"
    ∷ applicator_id "prefixItems"
    ∷ applicator_id "items"
    ∷ applicator_id "contains"
    ∷ unevaluated_id "unevaluatedProperties"
    ∷ unevaluated_id "unevaluatedItems"
    ∷ []

produced_listed : environment.registry.produced_ids ≡ produced
unfolding environment lookups dialect all_of any_of one_of not_keyword then_keyword
    dependent_schemas properties pattern_properties additional_properties property_names
    prefix_items items contains unevaluated_properties unevaluated_items type_keyword
produced_listed = refl

pub declared :
    (name : String) (b : KeywordBehavior) (keyword_value v : Json)
    → member_of b.id produced ≡ true
    → declares environment (context name b keyword_value v) ≡ true
declared name b keyword_value v h = subst (λ l. member_of b.id l ≡ true) (sym produced_listed) h

pub names_consumed : consumption_error environment property_ids ≡ none
unfolding environment lookups dialect all_of any_of one_of not_keyword then_keyword
    dependent_schemas properties pattern_properties additional_properties property_names
    prefix_items items contains unevaluated_properties unevaluated_items type_keyword
    consumption_error property_ids
names_consumed = refl

pub indexes_consumed : consumption_error environment item_ids ≡ none
unfolding environment lookups dialect all_of any_of one_of not_keyword then_keyword
    dependent_schemas properties pattern_properties additional_properties property_names
    prefix_items items contains unevaluated_properties unevaluated_items type_keyword
    consumption_error item_ids
indexes_consumed = refl

pub outcomes_consumed : consumption_error environment (applicator_id "if" ∷ []) ≡ none
unfolding environment lookups dialect all_of any_of one_of not_keyword then_keyword
    dependent_schemas properties pattern_properties additional_properties property_names
    prefix_items items contains unevaluated_properties unevaluated_items type_keyword
    consumption_error
outcomes_consumed = refl

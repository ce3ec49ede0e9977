-- ===== src/Tests/Applied.antt =====
-- What the engine returns for an application of a schema that asks for a text, or of `false`, below
-- the application of the document.
use json_schema_engine.Base.{
  ℕ, suc, leb, ◌≡◌, refl, sym, Bool, true, false, [], ◌∷◌, String, ok, arith, any, str_eq, ap, ◌∙◌,
}
use mathlib.Core.Path.{subst}
use json_schema_engine.Json.{Json, boolean, string, object, Members, end, member, lookup}
use json_schema_engine.Cursor.{Cursor, root_cursor, SchemaRef, value, ref_key}
use json_schema_engine.Engine.State.{PathNode, EvalState}
use json_schema_engine.Engine.Operations.{scan_active, enter, deepen}
use json_schema_engine.Engine.Program.{Dialect, DialectKeyword, Environment}
use json_schema_engine.Engine.Context.{Context, Application}
use json_schema_engine.Engine.Apply.{
  run, apply_schema, apply_at_depth, apply_node, apply_object, evaluate_all, evaluate_keyword,
  node_table, proceed, present_entries, unknown_names, each, conclude,
}
use json_schema_engine.Keywords.InPlace.{
  all_of, any_of, one_of, not_keyword, then_keyword, dependent_schemas,
}
use json_schema_engine.Keywords.Object.{
  properties, pattern_properties, additional_properties, property_names,
}
use json_schema_engine.Keywords.Array.{prefix_items, items, contains}
use json_schema_engine.Keywords.Unevaluated.{unevaluated_properties, unevaluated_items}
use json_schema_engine.Keywords.Validation.{asserted, type_keyword, type_matches}
use json_schema_engine.Keywords.Yields.{Situated}
use json_schema_engine.Schemas.Served.{engine_dialect}
use json_schema_engine.Tests.Document.{dialect, text_schema, lookups, environment, start}

abbrev type_entry : DialectKeyword
type_entry = record { name = "type"; behavior = type_keyword; vocabulary_uri = "urn:v" }

abbrev type_member : Members
type_member = member "type" (string "string") end

asserted_verdict :
    (self : Application) (x : Context) (v : Json) (mark : ℕ) (b : Bool) (s : EvalState)
    → (proceed (run environment self x (asserted "type" v b) false s) (conclude type_entry mark)).0
      ≡ ok b
unfolding run conclude
asserted_verdict self x v mark true s = refl
asserted_verdict self x v mark false s = refl

abbrev tested : Json → Bool
tested v = any (λ t. type_matches t v) (string "string" ∷ [])

tested-eq : (v : Json) → tested v ≡ type_matches (string "string") v
tested-eq v = ground arith

type_verdict :
    (self : Application) (r : SchemaRef) (c : Cursor) (p : PathNode) (s : EvalState)
    → (evaluate_keyword environment self r type_member c p type_entry s).0
      ≡ ok (type_matches (string "string") (value c))
unfolding evaluate_keyword type_keyword lookup type_matches
type_verdict self r c p s =
    asserted_verdict self _ (string "string") _ (tested (value c)) s ∙ ap ok (tested-eq (value c))

object_verdict :
    (self : Application) (r : SchemaRef) (c : Cursor) (p : PathNode) (s : EvalState)
    → (apply_object environment self (engine_dialect dialect) r type_member c p s).0
      ≡ ok (type_matches (string "string") (value c))
unfolding apply_object evaluate_all node_table present_entries unknown_names each lookup dialect
    all_of any_of one_of not_keyword then_keyword dependent_schemas properties pattern_properties
    additional_properties property_names prefix_items items contains unevaluated_properties
    unevaluated_items type_keyword
object_verdict self r c p s = rw (type_verdict self r c p _, each) refl

other_scan :
    (v : Json) (k : String) (c : Cursor)
    → str_eq "urn:a#" k ≡ false
    → scan_active k c (("urn:a#", root_cursor 0 v) ∷ []) ≡ false
unfolding scan_active
other_scan v k c h = ground (arith, h)

entered_lem :
    (r : SchemaRef) (c : Cursor) (s : EvalState)
    → scan_active (ref_key r) c s.active ≡ false
    → enter r c s ≡ (ok tt, record s { active = (ref_key r, c) ∷ s.active })
unfolding enter
entered_lem r c s h = rw h refl

applied_lem :
    (env : Environment) (self : Application) (d : Dialect) (ms : Members) (r : SchemaRef)
    (c : Cursor) (p : PathNode) (s t : EvalState)
    → env.registry.dialect_for r.base_uri ≡ ok d
    → enter r c s ≡ (ok tt, t)
    → apply_node env self (object ms) r c p s ≡ apply_object env self d r ms c p t
unfolding apply_node
applied_lem env self d ms r c p s t known free = rw (known, apply_node) (rw (free, apply_node) refl)

dialect_known : environment.registry.dialect_for "urn:a" ≡ ok (engine_dialect dialect)
unfolding environment lookups dialect all_of any_of one_of not_keyword then_keyword
    dependent_schemas properties pattern_properties additional_properties property_names
    prefix_items items contains unevaluated_properties unevaluated_items type_keyword
dialect_known = refl

abbrev pub text_part : String → SchemaRef
text_part pointer = record { node = text_schema; base_uri = "urn:a"; pointer = pointer }

abbrev pub false_part : String → SchemaRef
false_part pointer = record { node = boolean false; base_uri = "urn:a"; pointer = pointer }

-- An application of such a schema at a place that is not the one being applied.
text_answers :
    (v : Json) (pointer : String) (c : Cursor) (p : PathNode) (s : EvalState)
    → str_eq "urn:a#" (ref_key (text_part pointer)) ≡ false
    → s.active ≡ ("urn:a#", root_cursor 0 v) ∷ []
    → (apply_node environment (apply_schema environment 6) text_schema (text_part pointer) c p s).0
      ≡ ok (type_matches (string "string") (value c))
text_answers v pointer c p s other on =
    let r = text_part pointer in
    let t : EvalState = record s { active = (ref_key r, c) ∷ s.active } in
    let free : scan_active (ref_key r) c s.active ≡ false =
      subst (λ l. scan_active (ref_key r) c l ≡ false) (sym on)
        (other_scan v (ref_key r) c other) in
    ap (λ m. m.0)
      (applied_lem environment (apply_schema environment 6) (engine_dialect dialect) type_member r c
        p s t dialect_known (entered_lem r c s free))
    ∙ object_verdict (apply_schema environment 6) r c p t

-- From the body of an application to the application.
below_limit :
    (env : Environment) (fuel : ℕ) (r : SchemaRef) (c : Cursor) (p : PathNode) (s : EvalState)
    → leb env.max_depth s.depth ≡ false
    → (apply_schema env (suc fuel) r c p s).0
      ≡ (apply_node env (apply_schema env fuel) r.node r c p (deepen s)).0
unfolding apply_schema apply_at_depth
below_limit env fuel r c p s h = rw (h, apply_schema) refl

pub text_applied :
    (v : Json) (pointer : String) (c : Cursor) (p : PathNode) (s : EvalState)
    → str_eq "urn:a#" (ref_key (text_part pointer)) ≡ false
    → Situated (start v) s
    → (apply_schema environment 7 (text_part pointer) c p s).0
      ≡ ok (type_matches (string "string") (value c))
unfolding start environment
text_applied v pointer c p s other q =
    let deep : leb 8 s.depth ≡ false = subst (λ d. leb 8 d ≡ false) (sym q.depth) refl in
    below_limit environment 6 (text_part pointer) c p s deep
    ∙ text_answers v pointer c p (deepen s) other q.active

pub false_applied :
    (v : Json) (pointer : String) (c : Cursor) (p : PathNode) (s : EvalState)
    → Situated (start v) s
    → (apply_schema environment 7 (false_part pointer) c p s).0 ≡ ok false
unfolding start apply_node environment
false_applied v pointer c p s q =
    let deep : leb 8 s.depth ≡ false = subst (λ d. leb 8 d ≡ false) (sym q.depth) refl in
    below_limit environment 6 _ c p s deep

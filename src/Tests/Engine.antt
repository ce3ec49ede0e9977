-- ===== src/Tests/Engine.antt =====
-- The engine on concrete schemas.
use json_schema_engine.Base.{
  [], ◌∷◌, some, ◌≡◌, refl, true, false, ok, err, leb, arith, if◌then◌else◌, length,
  max_depth_exceeded, unresolvable_ref,
}
use json_schema_engine.Json.{string, lookup}
use json_schema_engine.Cursor.{root_cursor}
use json_schema_engine.Engine.State.{no_path, initial}
use json_schema_engine.Engine.Operations.{
  deepen, enter, trace_enter, open_frame, finish, push_annotation, trace_keyword, drop_errors_from,
}
use json_schema_engine.Engine.Apply.{
  apply_schema, apply_at_depth, surfaced, run_evaluation, apply_object, evaluate_all,
  evaluate_keyword, each, run, node_table, apply_boolean, conclude, collect_unknown,
}
use json_schema_engine.Engine.Core.{selecting, observe}
use json_schema_engine.Engine.Apply.{apply_with_backstop}
use json_schema_engine.Engine.Fragment.{FragmentRunner, seed, fresh, valid_fragment}
use json_schema_engine.Engine.Reuse.{IsUntraced, valid_fragment-fresh}
use json_schema_engine.Engine.Contract.{Settled, apply_schema-Settled}
use json_schema_engine.Engine.Fuel.{apply_schema-recursion}
use json_schema_engine.Engine.Selection.{selection_irrelevant}
use json_schema_engine.Engine.Runs.{run_evaluation-Settled}
use json_schema_engine.Tests.Fixtures.{environment, root, start, dialect}

-- `{"anyOf": [false, true], "title": "t"}` accepts a text, and leaves the annotation of the unknown
-- keyword.
accepts_text : (run_evaluation environment false "https://example.com/s" (string "x") 0).0 ≡ ok true
unfolding run_evaluation enter apply_object evaluate_all each node_table dialect lookup
    evaluate_keyword run trace_enter open_frame apply_boolean conclude collect_unknown
accepts_text = refl

unknown_root :
    (run_evaluation environment false "urn:none" (string "x") 0).0
    ≡ err (unresolvable_ref "urn:none")
unfolding run_evaluation
unknown_root = refl

keeps_annotation :
    length
      (run_evaluation environment false "https://example.com/s" (string "x") 0).1.frame.annotations
    ≡ 1
unfolding run_evaluation enter apply_object evaluate_all each node_table dialect lookup
    evaluate_keyword run trace_enter open_frame apply_boolean conclude collect_unknown finish
    push_annotation trace_keyword drop_errors_from
keeps_annotation = refl

-- The depth bound is an error, not a verdict.
too_deep :
    (apply_schema
      (record environment { max_depth = 1 })
      3
      root
      (root_cursor 0 (string "x"))
      no_path
      start).0
    ≡ err max_depth_exceeded
unfolding apply_schema start enter apply_object evaluate_all each node_table dialect lookup
    evaluate_keyword run trace_enter open_frame
too_deep = refl

apply_schema-Settled_example :
    Settled
      (apply_schema environment 8 root (root_cursor 0 (string "x")) no_path start).0
      start
      (apply_schema environment 8 root (root_cursor 0 (string "x")) no_path start).1
apply_schema-Settled_example =
    apply_schema-Settled environment 8 root (root_cursor 0 (string "x")) no_path start

apply_schema-recursion_example :
    apply_schema environment 8 root (root_cursor 0 (string "x")) no_path start ≡ (
      if leb environment.max_depth start.depth
      then (err max_depth_exceeded, start)
      else surfaced (
          apply_at_depth environment
            (apply_schema environment 8)
            root
            (root_cursor 0 (string "x"))
            no_path
            (deepen start)))
unfolding start
apply_schema-recursion_example =
    apply_schema-recursion environment 8 root (root_cursor 0 (string "x")) no_path start
      (omega arith)

selection_irrelevant_example :
    observe (
      apply_schema
        (selecting (λ id name vocabulary. true) environment)
        8
        root
        (root_cursor 0 (string "x"))
        no_path
        (initial true 1))
    ≡ observe (
        apply_schema
          (selecting (λ id name vocabulary. false) environment)
          8
          root
          (root_cursor 0 (string "x"))
          no_path
          (initial false 1))
unfolding initial
selection_irrelevant_example =
    selection_irrelevant environment (λ id name vocabulary. true) (λ id name vocabulary. false) 8
      root (root_cursor 0 (string "x")) no_path (initial true 1) (initial false 1) refl

run_evaluation-Settled_example :
    Settled
      (run_evaluation environment true "https://example.com/s" (string "x") 0).0
      (initial true 1)
      (run_evaluation environment true "https://example.com/s" (string "x") 0).1
run_evaluation-Settled_example =
    run_evaluation-Settled environment true "https://example.com/s" (string "x") 0

-- A runner that keeps a state of an earlier run, with what it left there.
abbrev used : FragmentRunner
used = record {
  pooled =
      some
        (record (initial false 9) { dynamic_scope = "https://example.com/left" ∷ []; depth = 5 });
  in_use = false;
}

valid_fragment-fresh_example :
    ((valid_fragment environment root (root_cursor 0 (string "x")) [] 2 1 used).0
      ≡ (apply_with_backstop environment root
          (root_cursor 0 (string "x"))
          no_path
          (seed [] (fresh false 2 1))).0)
    × IsUntraced (valid_fragment environment root (root_cursor 0 (string "x")) [] 2 1 used).1
unfolding initial
valid_fragment-fresh_example =
    valid_fragment-fresh environment root (root_cursor 0 (string "x")) [] 2 1 used refl

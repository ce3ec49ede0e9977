-- ===== src/Engine/Selection.antt =====
-- packages/core/src/engine.ts, rule 5: evaluations under two selections of annotations.
use json_schema_engine.Base.{
  ℕ, zero, suc, reverse, ◌+◌, ◌≡◌, refl, sym, ◌∙◌, ap, Bool, true, false, List, [], ◌∷◌, ◌++◌,
  Option, String, arith, leb, length, inl, inr, Result, ok, err, Result-cases, Option-cases,
  invalid_schema, max_depth_exceeded, out_of_fuel, if◌then◌else◌,
}
use mathlib.Core.Path.{subst}
use json_schema_engine.Json.{Json, Members, boolean, object}
use json_schema_engine.Cursor.{Cursor, SchemaRef, ref_key, child_cursor}
use json_schema_engine.Json.Pointer.{escape_segment}
use json_schema_engine.Engine.State.{PathNode, path_node, EvalState, Datum}
use json_schema_engine.Engine.Operations.{
  push_annotation, push_dependency, drop_errors_from, trace_enter, trace_keyword, enter,
  changes_resource, open_frame, enter_scope, deepen,
}
use json_schema_engine.Engine.Program.{
  Program, done, fail, child, apply, resolve_ref, resolve_dynamic, resolve_recursive,
  apply_resolved, compile_regex, annotate, produce, visible, error, report, DialectKeyword, Dialect,
  Environment,
}
use json_schema_engine.Engine.Context.{
  Context, Application, produce_step, extend_path, consumption_error, select_views, dynamic_target,
  recursive_target,
}
use json_schema_engine.Engine.Apply.{
  run, conclude, settle_errors, note_verdict, evaluate_keyword, collect_unknown, evaluate_all,
  apply_object, apply_boolean, apply_node, apply_schema, seal, surfaced, node_table, member_value,
  false_error,
}
use json_schema_engine.Engine.Core.{
  Core, core, observe, observe_loop, selecting, annotate_step-core, push_error_same, moved,
  proceed_same, follow_same, each_same, seal_same,
}

module _ (env : Environment) (f g : String → String → Option String → Bool) where
  produce_step_same :
      (x : Context) (d : Datum) (s t : EvalState)
      → core s ≡ core t
      → observe (produce_step (selecting f env) x d s)
        ≡ observe (produce_step (selecting g env) x d t)
  unfolding produce_step push_dependency
  produce_step_same x d s t e = ground arith

  consumption_same :
      (ids : List String)
      → consumption_error (selecting f env) ids ≡ consumption_error (selecting g env) ids
  unfolding consumption_error
  consumption_same ids = refl

  module _ (self other : Application)
      (alike : (r : SchemaRef) (c : Cursor) (p : PathNode) (s t : EvalState)
        → core s ≡ core t
        → observe (self r c p s) ≡ observe (other r c p t)) where
    apply_same :
        (r : SchemaRef) (c : Cursor) (s t : EvalState) (k : ℕ → PathNode × ℕ)
        → core s ≡ core t
        → observe (self r c (k s.next_id).0 (record s { next_id = (k s.next_id).1 }))
          ≡ observe (other r c (k t.next_id).0 (record t { next_id = (k t.next_id).1 }))
    apply_same r c s t k e =
        subst
          (λ n.
            observe (self r c (k s.next_id).0 (record s { next_id = (k s.next_id).1 }))
            ≡ observe (other r c (k n).0 (record t { next_id = (k n).1 })))
          (ap (λ q. q.next_id) e) (alike r c _ _ _ (moved s t _ e))

    run_same :
        (x : Context) (m : Program Bool) (b : Bool) (s t : EvalState)
        → core s ≡ core t
        → observe (run (selecting f env) self x m b s)
          ≡ observe (run (selecting g env) other x m b t)
    unfolding run
    run_same x (done a) b s t e = ap (λ q. (ok (a, b), q)) e
    run_same x (fail a) b s t e = ap (λ q. (err a, q)) e
    run_same x (child c seg v k) b s t e =
        subst
          (λ n.
            observe (
              run (selecting f env) self x (k (child_cursor s.next_id c seg v)) b
                (record s { next_id = s.next_id + 1 }))
            ≡ observe (
                run (selecting g env) other x (k (child_cursor n c seg v)) b
                  (record t { next_id = n + 1 })))
          (ap (λ q. q.next_id) e) (run_same x (k _) b _ _ (moved s t _ e))
    run_same x (apply segs c k) b s t e =
        elim (Result-cases (env.registry.child x.schema_ref segs)) [
          | inl (a, missing) ↦ rw (missing, run) (ap (λ q. (err a, q)) e)
          | inr (target, found) ↦
              rw (found, run)
                (proceed_same _ _ _ _
                  (apply_same target c s t (extend_path env.index_text x.path segs) e)
                  (λ a u v q. run_same x (k a) b u v q))
        ]
    run_same x (resolve_ref u k) b s t e =
        proceed_same _ _ _ _ (ap (λ q. (env.registry.resolve_ref u x.schema_ref.base_uri, q)) e)
          (λ a v w q. run_same x (k a) b v w q)
    run_same x (resolve_dynamic u k) b s t e =
        proceed_same _ _ _ _
          (ap {A = Core}
            (λ q.
              (dynamic_target env.registry u x.schema_ref.base_uri (reverse q.dynamic_scope), q))
            e)
          (λ a v w q. run_same x (k a) b v w q)
    run_same x (resolve_recursive u k) b s t e =
        proceed_same _ _ _ _
          (ap {A = Core}
            (λ q.
              (recursive_target env.registry u x.schema_ref.base_uri (reverse q.dynamic_scope), q))
            e)
          (λ a v w q. run_same x (k a) b v w q)
    run_same x (apply_resolved u k) b s t e =
        proceed_same _ _ _ _
          (apply_same u x.cursor s t
            (λ n. (path_node n x.path (escape_segment x.entry.name), n + 1)) e)
          (λ a u v q. run_same x (k a) b u v q)
    run_same x (compile_regex u k) b s t e =
        proceed_same _ _ _ _ (ap (λ q. (env.compile_regex u, q)) e)
          (λ a v w q. run_same x (k a) b v w q)
    run_same x (annotate k) b s t e = run_same x k b _ _ (
        annotate_step-core (selecting f env) x s
        ∙ e
        ∙ sym (annotate_step-core (selecting g env) x t))
    run_same x (produce a k) b s t e =
        proceed_same _ _ _ _ (produce_step_same x a s t e) (λ _ u v q. run_same x k b u v q)
    run_same x (visible ids sc k) b s t e =
        elim (Option-cases (consumption_error (selecting f env) ids)) [
          | inl declared ↦
              rw (declared, sym (consumption_same ids) ∙ declared, run)
                (subst
                  (λ ds.
                    observe (
                      run (selecting f env) self x (k (select_views x ids sc s.frame.dependencies))
                        b s)
                    ≡ observe (run (selecting g env) other x (k (select_views x ids sc ds)) b t))
                  (ap (λ q. q.dependencies) e) (run_same x (k _) b s t e))
          | inr (a, found) ↦
              rw (found, sym (consumption_same ids) ∙ found, run) (ap (λ q. (err a, q)) e)
        ]
    run_same x (error a k) b s t e = run_same x k true _ _ (push_error_same s t _ e)
    run_same x (report a k) b s t e = run_same x k true _ _ (push_error_same s t _ e)

    conclude_same :
        (entry : DialectKeyword) (mark : ℕ) (m : Bool × Bool) (s t : EvalState)
        → core s ≡ core t
        → observe (conclude entry mark m s) ≡ observe (conclude entry mark m t)
    unfolding conclude settle_errors note_verdict drop_errors_from trace_keyword
    conclude_same entry mark (b, reported) s t e = ground arith

    evaluate_keyword_same :
        (r : SchemaRef) (ms : Members) (c : Cursor) (p : PathNode) (entry : DialectKeyword)
        (s t : EvalState)
        → core s ≡ core t
        → observe (evaluate_keyword (selecting f env) self r ms c p entry s)
          ≡ observe (evaluate_keyword (selecting g env) other r ms c p entry t)
    unfolding evaluate_keyword
    evaluate_keyword_same r ms c p entry s t e =
        proceed_same _ _ _ _
          (run_same _ (entry.behavior.evaluate (member_value entry.name ms) c ms) false s t e)
          (λ a u v q.
            conclude_same entry (length s.errors) a u v q
            ∙ ap (λ n. observe (conclude entry n a v)) (ap (λ z. length z.errors) e))

  collect_same :
      (d : Dialect) (r : SchemaRef) (ms : Members) (c : Cursor) (p : PathNode) (name : String)
      (s t : EvalState)
      → core s ≡ core t
      → observe (collect_unknown (selecting f env) d r ms c p name s)
        ≡ observe (collect_unknown (selecting g env) d r ms c p name t)
  unfolding collect_unknown push_annotation trace_keyword
  collect_same d r ms c p name s t e = ground arith

enter_same :
    (r : SchemaRef) (c : Cursor) (s t : EvalState)
    → core s ≡ core t
    → observe (enter r c s) ≡ observe (enter r c t)
unfolding enter
enter_same r c s t e = ground arith

apply_boolean_same :
    (b : Bool) (r : SchemaRef) (c : Cursor) (p : PathNode) (s t : EvalState)
    → core s ≡ core t
    → core (apply_boolean b r c p s) ≡ core (apply_boolean b r c p t)
unfolding apply_boolean
apply_boolean_same true r c p s t e = e
apply_boolean_same false r c p s t e =
    ap {A = Core} (λ q. record q { errors = q.errors ++ false_error r c p ∷ [] }) e

abbrev started : SchemaRef → Cursor → PathNode → Bool → EvalState → EvalState
started r c p pushed s = trace_enter r p c (open_frame (enter_scope pushed r.base_uri s))

started_same :
    (r : SchemaRef) (c : Cursor) (p : PathNode) (pushed : Bool) (s t : EvalState)
    → core s ≡ core t
    → core (started r c p pushed s) ≡ core (started r c p pushed t)
unfolding trace_enter open_frame
started_same r c p pushed s t e =
    ap {A = Core}
      (λ q. record q {
        dependencies = [];
        outer = q.dependencies ∷ q.outer;
        dynamic_scope = if pushed then r.base_uri ∷ q.dynamic_scope else q.dynamic_scope;
      })
      e

module _ (env : Environment) (f g : String → String → Option String → Bool)
    (self other : Application)
    (alike : (r : SchemaRef) (c : Cursor) (p : PathNode) (s t : EvalState)
      → core s ≡ core t
      → observe (self r c p s) ≡ observe (other r c p t)) where
  evaluate_all_same :
      (d : Dialect) (r : SchemaRef) (ms : Members) (c : Cursor) (p : PathNode) (s t : EvalState)
      → core s ≡ core t
      → observe_loop (evaluate_all (selecting f env) self d r ms c p s)
        ≡ observe_loop (evaluate_all (selecting g env) other d r ms c p t)
  unfolding evaluate_all
  evaluate_all_same d r ms c p s t e =
      follow_same _ _ _ _
        (each_same _ _ (λ a u v q. evaluate_keyword_same env f g self other alike r ms c p a u v q)
          (node_table ms d).0 true s t e)
        (λ w u v q.
          each_same _ _ (λ a u' v' q'. collect_same env f g d r ms c p a u' v' q')
            (node_table ms d).1 w u v q)

  apply_object_same :
      (d : Dialect) (r : SchemaRef) (ms : Members) (c : Cursor) (p : PathNode) (s t : EvalState)
      → core s ≡ core t
      → observe (apply_object (selecting f env) self d r ms c p s)
        ≡ observe (apply_object (selecting g env) other d r ms c p t)
  unfolding apply_object
  apply_object_same d r ms c p s t e =
      let pushed = changes_resource r.base_uri s.dynamic_scope in
      seal_same pushed _ _ (
        evaluate_all_same d r ms c p (started r c p pushed s) (started r c p pushed t)
          (started_same r c p pushed s t e))
      ∙ ap
          (λ y.
            observe (seal y (evaluate_all (selecting g env) other d r ms c p (started r c p y t))))
          (ap (λ q. changes_resource r.base_uri q.dynamic_scope) e)

  apply_node_same :
      (v : Json) (r : SchemaRef) (c : Cursor) (p : PathNode) (s t : EvalState)
      → core s ≡ core t
      → observe (apply_node (selecting f env) self v r c p s)
        ≡ observe (apply_node (selecting g env) other v r c p t)
  unfolding apply_node
  apply_node_same (boolean b) r c p s t e = ap (λ q. (ok b, q)) (apply_boolean_same b r c p s t e)
  apply_node_same (object ms) r c p s t e =
      elim (Result-cases (env.registry.dialect_for r.base_uri)) [
        | inl (a, missing) ↦ rw (missing, apply_node) (ap (λ q. (err a, q)) e)
        | inr (d, found) ↦
            rw (found, apply_node)
              (proceed_same _ _ _ _ (enter_same r c s t e)
                (λ _ u v q. apply_object_same d r ms c p u v q))
      ]
  apply_node_same _ r c p s t e = ap (λ q. (err (invalid_schema (ref_key r)), q)) e

deepened :
    (bound : ℕ) (m m' : Result Bool × EvalState) (s t : EvalState)
    → core s ≡ core t
    → observe m ≡ observe m'
    → observe (if leb bound s.depth then (err max_depth_exceeded, s) else surfaced m)
      ≡ observe (if leb bound t.depth then (err max_depth_exceeded, t) else surfaced m')
deepened bound (a, u) (b, v) s t e h = ground arith

-- Any two selections of annotations, and tracing or none, give the same verdict or error, and the
-- same errors, dependency records and stacks; so does any history of annotations and traces.
pub selection_irrelevant :
    (env : Environment) (f g : String → String → Option String → Bool) (fuel : ℕ) (r : SchemaRef)
    (c : Cursor) (p : PathNode) (s t : EvalState)
    → core s ≡ core t
    → observe (apply_schema (selecting f env) fuel r c p s)
      ≡ observe (apply_schema (selecting g env) fuel r c p t)
unfolding apply_schema
selection_irrelevant env f g zero r c p s t e =
    ap {A = Core}
      (λ q. (err (if leb env.max_depth q.depth then max_depth_exceeded else out_of_fuel), q)) e
selection_irrelevant env f g (suc fuel) r c p s t e = deepened env.max_depth _ _ s t e (
    apply_node_same env f g (apply_schema (selecting f env) fuel)
      (apply_schema (selecting g env) fuel)
      (λ r' c' p' s' t' e'. selection_irrelevant env f g fuel r' c' p' s' t' e') r.node r c p
      (deepen s) (deepen t) (ap {A = Core} (λ q. record q { depth = q.depth + 1 }) e))

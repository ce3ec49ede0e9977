-- ===== src/Engine/Apply.antt =====
-- packages/core/src/engine.ts: `applySchema`, `evaluateKeyword` and the runs that start from a root.
use Prim.Native.String.{◌++◌ as str_append}
use json_schema_engine.Base.{
  ℕ, zero, suc, ◌+◌, Bool, true, false, none, some, List, [], ◌∷◌, String, not, ltb, leb, ◌&&◌,
  if◌then◌else◌, length, reverse, Result, ok, err, EngineError, invalid_schema, unknown_keyword,
  keyword_contract, max_depth_exceeded, stack_overflow, out_of_fuel,
}
use json_schema_engine.Json.{
  Json, null, boolean, object, Members, entries, keys, lookup, has_own, is_some,
}
use json_schema_engine.Cursor.{Cursor, root_cursor, child_cursor, SchemaRef, ref_key}
use json_schema_engine.Json.Pointer.{escape_segment}
use json_schema_engine.Engine.State.{
  PathNode, no_path, path_node, AnnotationRecord, ErrorRecord, EvalState, initial, Exec,
}
use json_schema_engine.Engine.Operations.{
  push_error, push_annotation, drop_errors_from, trace_enter, trace_exit, trace_keyword, enter,
  deepen, surface, changes_resource, open_frame, enter_scope, finish,
}
use json_schema_engine.Engine.Program.{
  Program, done, fail, child, apply, resolve_ref, resolve_dynamic, resolve_recursive,
  apply_resolved, compile_regex, annotate, produce, visible, error, report, DialectKeyword, Dialect,
  Environment,
}
use json_schema_engine.Engine.Context.{
  Context, Application, extend_path, annotate_step, produce_step, select_views, consumption_error,
  error_of, recorded, dynamic_target, recursive_target,
}

-- The rest of a computation, which a throw skips.
abbrev pub proceed {ℓ κ} :
    {A : Type ℓ} {B : Type κ} → Result A × EvalState → (A → Exec B) → Result B × EvalState
proceed (ok a, s) f = f a s
proceed (err e, s) f = (err e, s)

module _ (env : Environment) (self : Application) (x : Context) where
  -- A keyword's program over the context; the flag is the context's `reported`.
  unfoldable pub run : Program Bool → Bool → Exec (Bool × Bool)
  run (done b) reported s = (ok (b, reported), s)
  run (fail e) reported s = (err e, s)
  run (child c seg v k) reported s =
      run (k (child_cursor s.next_id c seg v)) reported (record s { next_id = s.next_id + 1 })
  run (apply segs c k) reported s = elim (env.registry.child x.schema_ref segs) [
    | err e ↦ (err e, s)
    | ok target ↦
        let (p, n) = extend_path env.index_text x.path segs s.next_id in
        proceed (self target c p (record s { next_id = n })) (λ b. run (k b) reported)
  ]
  run (resolve_ref ref k) reported s =
      proceed (env.registry.resolve_ref ref x.schema_ref.base_uri, s) (λ t. run (k t) reported)
  run (resolve_dynamic ref k) reported s =
      proceed (dynamic_target env.registry ref x.schema_ref.base_uri (reverse s.dynamic_scope), s)
        (λ t. run (k t) reported)
  run (resolve_recursive ref k) reported s =
      proceed (recursive_target env.registry ref x.schema_ref.base_uri (reverse s.dynamic_scope), s)
        (λ t. run (k t) reported)
  run (apply_resolved target k) reported s =
      proceed
        (self target x.cursor (path_node s.next_id x.path (escape_segment x.entry.name))
          (record s { next_id = s.next_id + 1 }))
        (λ b. run (k b) reported)
  run (compile_regex pattern k) reported s =
      proceed (env.compile_regex pattern, s) (λ b. run (k b) reported)
  run (annotate k) reported s = run k reported (annotate_step env x s)
  run (produce d k) reported s = proceed (produce_step env x d s) (λ _. run k reported)
  run (visible ids scope k) reported s = elim (consumption_error env ids) [
    | some e ↦ (err e, s)
    | none ↦ run (k (select_views x ids scope s.frame.dependencies)) reported s
  ]
  run (error message k) reported s = run k true (push_error (error_of x message none) s)
  run (report d k) reported s = run k true (push_error (error_of x "" (some d)) s)

-- `unknownKeywordId`
abbrev unknown_keyword_id : String → String
unknown_keyword_id name = str_append "urn:jse:keyword:unknown#" name

-- `node[name]!`
abbrev pub member_value : String → Members → Json
member_value name ms = elim (lookup name (entries ms)) [ none ↦ null | some v ↦ v ]

unfoldable pub present_entries : List DialectKeyword → Members → List DialectKeyword
present_entries [] ms = []
present_entries (e ∷ es) ms =
    let rest = present_entries es ms in if has_own e.name (entries ms) then e ∷ rest else rest

unfoldable pub unknown_names : Dialect → List String → List String
unknown_names d [] = []
unknown_names d (n ∷ ns) =
    let rest = unknown_names d ns in if is_some (lookup n d.keywords) then rest else n ∷ rest

-- `buildNodeTable`: the entries present, in evaluation order, and the unknown names.
unfoldable pub node_table : Members → Dialect → List DialectKeyword × List String
unfolding present_entries unknown_names
node_table ms d =
    if d.ref_ignores_siblings && has_own "$ref" (entries ms)
    then (elim (lookup "$ref" d.keywords) [ none ↦ ([], []) | some ref ↦ (ref ∷ [], []) ])
    else (present_entries d.ordered ms, unknown_names d (keys (entries ms)))

-- Rule 6: an accepting keyword makes the errors that came since `mark` irrelevant.
unfoldable pub settle_errors : Bool → ℕ → EvalState → EvalState
settle_errors accepts mark s =
    if accepts && ltb mark (length s.errors) then drop_errors_from mark s else s

unfoldable pub note_verdict : DialectKeyword → Bool → EvalState → EvalState
note_verdict entry accepts s =
    if entry.behavior.structural then s else trace_keyword entry.name accepts s

-- What closes `evaluateKeyword` over a finished program.
unfoldable pub conclude : DialectKeyword → ℕ → Bool × Bool → Exec Bool
unfolding settle_errors note_verdict
conclude entry mark (accepts, reported) s =
    if accepts && reported
    then (err (keyword_contract entry.behavior.id), s)
    else (ok accepts, note_verdict entry accepts (settle_errors accepts mark s))

abbrev pub continue_loop :
    Bool
    → Result Bool × EvalState
    → (Bool → EvalState → Result (Unit {0}) × Bool × EvalState)
    → Result (Unit {0}) × Bool × EvalState
continue_loop valid (err e, s) f = (err e, valid, s)
continue_loop valid (ok accepts, s) f = f (valid && accepts) s

-- A loop over names or entries; it returns the verdict so far also where it throws.
unfoldable pub each {ℓ} :
    {A : Type ℓ}
    → (A → Exec Bool)
    → List A
    → Bool
    → EvalState
    → Result (Unit {0}) × Bool × EvalState
each f [] valid s = (ok tt, valid, s)
each f (a ∷ rest) valid s = continue_loop valid (f a s) (each f rest)

-- The second loop, which a throw of the first skips.
abbrev pub follow :
    Result (Unit {0}) × Bool × EvalState
    → (Bool → EvalState → Result (Unit {0}) × Bool × EvalState)
    → Result (Unit {0}) × Bool × EvalState
follow (ok _, valid, s) f = f valid s
follow (err e, valid, s) f = (err e, valid, s)

abbrev pub seal : Bool → Result (Unit {0}) × Bool × EvalState → Result Bool × EvalState
seal pushed (ok _, valid, s) = (ok valid, finish valid pushed s)
seal pushed (err e, valid, s) = (err e, finish valid pushed s)

abbrev pub false_error : SchemaRef → Cursor → PathNode → ErrorRecord
false_error r c p = record {
  keyword_name = none;
  vocabulary_uri = none;
  schema_ref = r;
  path = p;
  cursor = c;
  message = "schema is false";
  describe = none;
}

unfoldable pub apply_boolean : Bool → SchemaRef → Cursor → PathNode → EvalState → EvalState
unfolding push_error trace_enter trace_exit
apply_boolean b r c p s =
    let reported = if b then s else push_error (false_error r c p) s in
    trace_exit b (trace_enter r p c reported)

module _ (env : Environment) where
  -- One unknown keyword, collected as an annotation.
  unfoldable pub collect_unknown :
      Dialect → SchemaRef → Members → Cursor → PathNode → String → Exec Bool
  collect_unknown d r ms c p name s =
      let id = unknown_keyword_id name in
      let traced = trace_keyword name true s in
      let annotation : AnnotationRecord = record {
        behavior_id = id;
        keyword_name = name;
        vocabulary_uri = none;
        schema_ref = r;
        path = p;
        cursor = c;
        value = member_value name ms;
      } in
      if not d.allow_unknown_keywords then (err (unknown_keyword name), s) else (
        ok true,
        if recorded env id name none then push_annotation annotation traced else traced,
      )

module _ (env : Environment) (self : Application) where
  -- `evaluateKeyword`
  unfoldable pub evaluate_keyword :
      SchemaRef → Members → Cursor → PathNode → DialectKeyword → Exec Bool
  evaluate_keyword r ms c p entry s =
      let value = member_value entry.name ms in
      let x : Context = record {
        schema_ref = r;
        entry = entry;
        value = value;
        cursor = c;
        path = p;
      } in
      proceed (run env self x (entry.behavior.evaluate value c ms) false s)
        (conclude entry (length s.errors))

  -- The body of the `try` block of `applySchemaAtDepth`.
  unfoldable pub evaluate_all :
      Dialect
      → SchemaRef
      → Members
      → Cursor
      → PathNode
      → EvalState
      → Result (Unit {0}) × Bool × EvalState
  evaluate_all d r ms c p s =
      let (present, unknown) = node_table ms d in
      follow (each (evaluate_keyword r ms c p) present true s)
        (each (collect_unknown env d r ms c p) unknown)

  -- The application of a schema object, once it has been entered.
  unfoldable pub apply_object : Dialect → SchemaRef → Members → Cursor → PathNode → Exec Bool
  apply_object d r ms c p s =
      let pushed = changes_resource r.base_uri s.dynamic_scope in
      let opened = open_frame (enter_scope pushed r.base_uri s) in
      seal pushed (evaluate_all d r ms c p (trace_enter r p c opened))

  unfoldable pub apply_node : Json → Application
  apply_node (boolean b) r c p s = (ok b, apply_boolean b r c p s)
  apply_node (object ms) r c p s = elim (env.registry.dialect_for r.base_uri) [
    | err e ↦ (err e, s)
    | ok d ↦ proceed (enter r c s) (λ _. apply_object d r ms c p)
  ]
  apply_node _ r c p s = (err (invalid_schema (ref_key r)), s)

  -- `applySchemaAtDepth`
  unfoldable pub apply_at_depth : Application
  unfolding apply_node
  apply_at_depth r c p s = apply_node r.node r c p s

abbrev pub surfaced : Result Bool × EvalState → Result Bool × EvalState
surfaced (r, s) = (r, surface s)

-- `applySchema`. The fuel bounds the nesting of calls, as `maxDepth - depth` does in the source.
unfoldable pub apply_schema : Environment → ℕ → Application
unfolding apply_at_depth
apply_schema env zero r c p s =
    (err (if leb env.max_depth s.depth then max_depth_exceeded else out_of_fuel), s)
apply_schema env (suc fuel) r c p s =
    if leb env.max_depth s.depth
    then (err max_depth_exceeded, s)
    else surfaced (apply_at_depth env (apply_schema env fuel) r c p (deepen s))

-- A native overflow becomes the typed error.
abbrev pub typed_overflow : EngineError → EngineError
typed_overflow stack_overflow = max_depth_exceeded
typed_overflow e = e

-- The `catch` of `applyWithOverflowBackstop`.
abbrev pub backstop : Result Bool × EvalState → Result Bool × EvalState
backstop (err e, s) = (err (typed_overflow e), s)
backstop (ok b, s) = (ok b, s)

unfoldable pub apply_with_backstop : Environment → Application
unfolding apply_schema
apply_with_backstop env r c p s = backstop (apply_schema env env.max_depth r c p s)

-- `runEvaluation`; the cursor of the instance takes the first identity.
unfoldable pub run_evaluation : Environment → Bool → String → Json → ℕ → Result Bool × EvalState
unfolding apply_with_backstop initial
run_evaluation env tracing uri instance_value next = elim (env.registry.root_ref uri) [
  | err e ↦ (err e, initial tracing (next + 1))
  | ok r ↦
      apply_with_backstop env r (root_cursor next instance_value) no_path
        (initial tracing (next + 1))
]

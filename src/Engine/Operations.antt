-- ===== src/Engine/Operations.antt =====
-- packages/core/src/engine.ts: the methods of `EvalState`, and the frames of an application.
use json_schema_engine.Base.{
  ℕ, ◌+◌, ◌-◌, Bool, true, false, Option, none, some, List, [], ◌∷◌, ◌++◌, String, str_eq, not, ltb,
  if◌then◌else◌, take, drop, ok, err, infinite_loop,
}
use json_schema_engine.Cursor.{Cursor, SchemaRef, depth, same_cursor, ref_key}
use json_schema_engine.Engine.State.{
  PathNode, AnnotationRecord, DependencyRecord, ErrorRecord, Frame, empty_frame, KeywordTrace,
  TraceNode, trace_node, no_trees, grow, Trace, EvalState, Exec,
}

-- `trace === null` is `!state.tracing`
abbrev pub map_trace : (Trace → Trace) → Option Trace → Option Trace
map_trace f none = none
map_trace f (some t) = some (f t)

unfoldable pub push_error : ErrorRecord → EvalState → EvalState
push_error e s = record s { errors = s.errors ++ e ∷ [] }

unfoldable pub push_annotation : AnnotationRecord → EvalState → EvalState
push_annotation a s = record s {
  frame = record {
    annotations = s.frame.annotations ++ a ∷ [];
    dependencies = s.frame.dependencies;
  };
  trace = map_trace (λ t. record t { all_annotations = t.all_annotations ++ a ∷ [] }) s.trace;
}

unfoldable pub push_dependency : DependencyRecord → EvalState → EvalState
push_dependency d s = record s {
  frame = record {
    annotations = s.frame.annotations;
    dependencies = s.frame.dependencies ++ d ∷ [];
  };
  trace = map_trace (λ t. record t { all_dependencies = t.all_dependencies ++ d ∷ [] }) s.trace;
}

-- `dropErrorsFrom`
unfoldable pub drop_errors_from : ℕ → EvalState → EvalState
drop_errors_from mark s = record s {
  errors = take mark s.errors;
  trace =
      map_trace (λ t. record t { dropped_errors = t.dropped_errors ++ drop mark s.errors }) s.trace;
}

-- `traceEnter`
unfoldable pub trace_enter : SchemaRef → PathNode → Cursor → EvalState → EvalState
trace_enter r p c s = record s {
  trace = map_trace (λ t. record t { stack = trace_node r p c true [] no_trees ∷ t.stack }) s.trace;
}

abbrev settle : Bool → TraceNode → TraceNode
settle valid (trace_node r p c _ ks ts) = trace_node r p c valid ks ts

abbrev link : TraceNode → TraceNode → TraceNode
link n (trace_node r p c v ks ts) = trace_node r p c v ks (grow ts n)

abbrev close_trace : Bool → Trace → Trace
close_trace valid t = elim t.stack [
  | [] ↦ t
  | n ∷ [] ↦ record t { root = some (settle valid n); stack = [] }
  | n ∷ m ∷ rest ↦ record t { stack = link (settle valid n) m ∷ rest }
]

-- `traceExit`
unfoldable pub trace_exit : Bool → EvalState → EvalState
trace_exit valid s = record s { trace = map_trace (close_trace valid) s.trace }

abbrev note : KeywordTrace → List TraceNode → List TraceNode
note k [] = []
note k (trace_node r p c v ks ts ∷ rest) = trace_node r p c v (ks ++ k ∷ []) ts ∷ rest

-- `traceKeyword`
unfoldable pub trace_keyword : String → Bool → EvalState → EvalState
trace_keyword name valid s = record s {
  trace =
      map_trace (λ t. record t { stack = note (record { name = name; valid = valid }) t.stack })
        s.trace;
}

-- The scan of `enter` from the top: true when the schema is active at this cursor.
unfoldable pub scan_active : String → Cursor → List (String × Cursor) → Bool
scan_active key c [] = false
scan_active key c ((k, a) ∷ below) =
    let further = scan_active key c below in
    if same_cursor a c
    then (if str_eq k key then true else further)
    else (if ltb (depth a) (depth c) then false else further)

unfoldable pub enter : SchemaRef → Cursor → Exec (Unit {0})
unfolding scan_active
enter r c s =
    if scan_active (ref_key r) c s.active
    then (err (infinite_loop (ref_key r)), s)
    else (ok tt, record s { active = (ref_key r, c) ∷ s.active })

abbrev pub drop_top {ℓ} : {A : Type ℓ} → List A → List A
drop_top [] = []
drop_top (x ∷ xs) = xs

unfoldable pub exit : EvalState → EvalState
exit s = record s { active = drop_top s.active }

-- `state.depth = depth` on the way in and out of an application
abbrev pub deepen : EvalState → EvalState
deepen s = record s { depth = s.depth + 1 }

abbrev pub surface : EvalState → EvalState
surface s = record s { depth = s.depth - 1 }

-- `scope[scope.length - 1] !== baseUri`
abbrev pub changes_resource : String → List String → Bool
changes_resource uri [] = true
changes_resource uri (top ∷ scope) = not (str_eq top uri)

unfoldable pub open_frame : EvalState → EvalState
open_frame s = record s { frame = empty_frame; outer = s.frame ∷ s.outer }

abbrev pub merge : Frame → Frame → Frame
merge parent f = record {
  annotations = parent.annotations ++ f.annotations;
  dependencies = parent.dependencies ++ f.dependencies;
}

abbrev pub close_onto : Bool → EvalState → List Frame → EvalState
close_onto valid s [] = s
close_onto valid s (parent ∷ rest) = record s {
  frame = if valid then merge parent s.frame else parent;
  outer = rest;
}

-- Rule 3: merge into the parent on success, discard on failure.
unfoldable pub close_frame : Bool → EvalState → EvalState
close_frame valid s = close_onto valid s s.outer

-- `scope.push(baseUri)` and `scope.pop()`, where `pushed`
abbrev pub enter_scope : Bool → String → EvalState → EvalState
enter_scope pushed uri s = record s {
  dynamic_scope = if pushed then uri ∷ s.dynamic_scope else s.dynamic_scope;
}

abbrev pub leave_scope : Bool → EvalState → EvalState
leave_scope pushed s = record s {
  dynamic_scope = if pushed then drop_top s.dynamic_scope else s.dynamic_scope;
}

-- The `finally` block of an application.
unfoldable pub finish : Bool → Bool → EvalState → EvalState
unfolding exit trace_exit close_frame
finish valid pushed s = exit (leave_scope pushed (trace_exit valid (close_frame valid s)))

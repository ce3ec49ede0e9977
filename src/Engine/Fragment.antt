-- ===== src/Engine/Fragment.antt =====
-- packages/core/src/engine.ts: `reset`, `createFragmentRunner` and `evaluateFragment`. The identities
-- that a call draws, `next`, come from outside of the states that it uses.
use json_schema_engine.Base.{
  ℕ, Bool, true, false, Option, none, some, List, [], ◌++◌, String, reverse, Result, ok, err,
}
use json_schema_engine.Cursor.{Cursor, SchemaRef}
use json_schema_engine.Engine.State.{
  PathNode, no_path, AnnotationRecord, DependencyRecord, ErrorRecord, Trace, empty_frame, EvalState,
  initial,
}
use json_schema_engine.Engine.Program.{Environment}
use json_schema_engine.Engine.Apply.{apply_with_backstop}

-- `reset`; the root frame is emptied, and the others are cut off.
unfoldable pub reset : ℕ → EvalState → EvalState
reset depth s = record s {
  frame = empty_frame;
  outer = [];
  errors = [];
  dynamic_scope = [];
  depth = depth;
  active = [];
}

-- `seed`: the scope is outermost first, and is pushed in this order.
abbrev pub seed : List String → EvalState → EvalState
seed scope s = record s { dynamic_scope = reverse scope ++ s.dynamic_scope }

-- `fresh`, at the caller's depth
unfoldable pub fresh : Bool → ℕ → ℕ → EvalState
unfolding initial
fresh tracing depth next = record (initial tracing next) { depth = depth }

-- The variables that the runner closes over.
pub record FragmentRunner : Type 0 where
  pub pooled : Option EvalState
  pub in_use : Bool

abbrev pub new_runner : FragmentRunner
new_runner = record { pooled = none; in_use = false }

-- The state that a call works on, where none is at work.
unfoldable pub pooled_state : FragmentRunner → ℕ → ℕ → EvalState
unfolding fresh
pooled_state w depth next = elim w.pooled [
  | none ↦ fresh false depth next
  | some s ↦ record s { next_id = next }
]

-- The `finally` block: a state that a throw left is given up.
abbrev pub kept_state : Result Bool × EvalState → Option EvalState
kept_state (ok b, s) = some s
kept_state (err e, s) = none

-- `valid`. A nested call, while another is at work, takes a state of its own.
unfoldable pub valid_fragment :
    Environment
    → SchemaRef
    → Cursor
    → List String
    → ℕ
    → ℕ
    → FragmentRunner
    → Result Bool × FragmentRunner
unfolding reset pooled_state fresh
valid_fragment env target c scope depth next w =
    let nested = apply_with_backstop env target c no_path (seed scope (fresh false depth next)) in
    let pooled =
      apply_with_backstop env target c no_path
        (seed scope (reset depth (pooled_state w depth next))) in
    elim w.in_use [
      | true ↦ (nested.0, w)
      | false ↦ (pooled.0, record { pooled = kept_state pooled; in_use = false })
    ]

-- What `evaluateFragment` returns beside the verdict.
pub record Fragment : Type 0 where
  pub errors : List ErrorRecord
  pub annotations : List AnnotationRecord
  pub dependencies : List DependencyRecord
  pub trace : Option Trace

abbrev pub fragment_of : Result Bool × EvalState → Result (Bool × Fragment)
fragment_of (ok b, s) = ok (
  b,
  record {
    errors = s.errors;
    annotations = s.frame.annotations;
    dependencies = s.frame.dependencies;
    trace = s.trace;
  },
)
fragment_of (err e, s) = err e

unfoldable pub evaluate_fragment :
    Environment
    → Bool
    → SchemaRef
    → Cursor
    → PathNode
    → List String
    → ℕ
    → ℕ
    → Result (Bool × Fragment)
unfolding fresh
evaluate_fragment env tracing target c p scope depth next =
    fragment_of (apply_with_backstop env target c p (seed scope (fresh tracing depth next)))

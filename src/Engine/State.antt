-- ===== src/Engine/State.antt =====
-- packages/core/src/engine.ts: records, frames, trace nodes and the state of one evaluation.
-- Each stack of the source is a list with its top at the head. The two parallel stacks of active
-- applications are one list of pairs. `next_id` numbers the objects whose identity is compared.
use Prim.Native.String.{◌++◌ as str_append}
use json_schema_engine.Base.{
  ℕ, Bool, true, false, Option, none, some, List, [], String, ◌==◌, if◌then◌else◌, Result,
}
use json_schema_engine.Json.{Json}
use json_schema_engine.Cursor.{Cursor, SchemaRef}

-- One pre-escaped segment of the evaluation path; `no_path` is `null`.
pub data PathNode : Type 0 where
  no_path : PathNode
  path_node : ℕ → PathNode → String → PathNode

-- `a === b` of path nodes
abbrev pub same_path : PathNode → PathNode → Bool
same_path no_path no_path = true
same_path (path_node i p s) (path_node j q t) = i == j
same_path _ _ = false

unfoldable pub materialize_from : PathNode → String → String
materialize_from no_path s = s
materialize_from (path_node i p segment) s =
    materialize_from p (str_append "/" (str_append segment s))

unfoldable pub materialize_path : PathNode → String
unfolding materialize_from
materialize_path n = materialize_from n ""

-- The dependency data that keywords exchange: a verdict, names, an index bound, indexes, or
-- data of a shape that none of these has, which only a keyword of a program's own produces.
pub data Datum : Type 0 where
  verdict : Bool → Datum
  names : List String → Datum
  amount : ℕ → Datum
  indexes : List ℕ → Datum
  custom : Json → Datum

-- A description of an error, built by a keyword: the helper that builds it and its arguments.
pub record Description : Type 0 where
  pub template : String
  pub arguments : List Datum

pub record AnnotationRecord : Type 0 where
  pub behavior_id : String
  pub keyword_name : String
  pub vocabulary_uri : Option String
  pub schema_ref : SchemaRef
  pub path : PathNode
  pub cursor : Cursor
  pub value : Json

pub record DependencyRecord : Type 0 where
  pub behavior_id : String
  pub keyword_name : String
  pub schema_ref : SchemaRef
  pub path : PathNode
  pub cursor : Cursor
  pub datum : Datum

pub record ErrorRecord : Type 0 where
  pub keyword_name : Option String
  pub vocabulary_uri : Option String
  pub schema_ref : SchemaRef
  pub path : PathNode
  pub cursor : Cursor
  pub message : String
  pub describe : Option Description

pub record Frame : Type 0 where
  pub annotations : List AnnotationRecord
  pub dependencies : List DependencyRecord

abbrev pub empty_frame : Frame
empty_frame = record { annotations = []; dependencies = [] }

pub record KeywordTrace : Type 0 where
  pub name : String
  pub valid : Bool

mutual
  pub data TraceNode : Type 0 where
    trace_node : SchemaRef → PathNode → Cursor → Bool → List KeywordTrace → TraceForest → TraceNode

  pub data TraceForest : Type 0 where
    no_trees : TraceForest
    grow : TraceForest → TraceNode → TraceForest

-- What only a tracing run keeps. An open node is linked under its parent when it is closed.
pub record Trace : Type 0 where
  pub root : Option TraceNode
  pub stack : List TraceNode
  pub all_annotations : List AnnotationRecord
  pub all_dependencies : List DependencyRecord
  pub dropped_errors : List ErrorRecord

abbrev pub empty_trace : Trace
empty_trace = record {
  root = none;
  stack = [];
  all_annotations = [];
  all_dependencies = [];
  dropped_errors = [];
}

-- `frame` is the innermost open frame, `outer` the frames below it, the root frame last.
pub record EvalState : Type 0 where
  pub frame : Frame
  pub outer : List Frame
  pub errors : List ErrorRecord
  pub dynamic_scope : List String
  pub trace : Option Trace
  pub depth : ℕ
  pub active : List (String × Cursor)
  pub next_id : ℕ

unfoldable pub initial : Bool → ℕ → EvalState
initial tracing next = record {
  frame = empty_frame;
  outer = [];
  errors = [];
  dynamic_scope = [];
  trace = if tracing then some empty_trace else none;
  depth = 0;
  active = [];
  next_id = next;
}

-- An action on the state that may throw; what was written before a throw stays written.
abbrev pub Exec {ℓ} : Type ℓ → Type ℓ
Exec A = EvalState → Result A × EvalState

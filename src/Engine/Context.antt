-- ===== src/Engine/Context.antt =====
-- packages/core/src/engine.ts: the methods of `KeywordContextImpl`.
use json_schema_engine.Base.{
  ℕ, ◌+◌, Bool, true, false, Option, none, some, List, [], ◌∷◌, String, str_eq, not, ◌&&◌,
  if◌then◌else◌, any, Result, ok, err, EngineError, undeclared_consumption, undeclared_production,
}
use json_schema_engine.Json.{Json}
use json_schema_engine.Cursor.{Cursor, Segment, SchemaRef, same_cursor, segment_text}
use json_schema_engine.Json.Pointer.{escape_segment}
use json_schema_engine.Engine.State.{
  PathNode, path_node, same_path, Datum, Description, AnnotationRecord, DependencyRecord,
  ErrorRecord, EvalState, Exec,
}
use json_schema_engine.Engine.Operations.{push_annotation, push_dependency}
use json_schema_engine.Engine.Program.{
  Scope, every, adjacent, DependencyView, DialectKeyword, Registry, Environment,
}

abbrev pub member_of : String → List String → Bool
member_of k l = any (str_eq k) l

-- Who runs: the schema position, the keyword, its value, the cursor and the path of the schema.
pub record Context : Type 0 where
  pub schema_ref : SchemaRef
  pub entry : DialectKeyword
  pub value : Json
  pub cursor : Cursor
  pub path : PathNode

-- The recursive call, `applySchema`.
abbrev pub Application : Type 0
Application = SchemaRef → Cursor → PathNode → Exec Bool

first_anchor : Registry → String → SchemaRef → List String → SchemaRef
first_anchor reg anchor lexical [] = lexical
first_anchor reg anchor lexical (uri ∷ scope) = elim (reg.dynamic_anchor uri anchor) [
  | some hit ↦ hit
  | none ↦ first_anchor reg anchor lexical scope
]

-- `resolveDynamic`; the scope is outermost first
unfoldable pub dynamic_target : Registry → String → String → List String → Result SchemaRef
unfolding first_anchor
dynamic_target reg ref base scope = elim (reg.dynamic_reference ref base) [
  | err e ↦ err e
  | ok (lexical, none) ↦ ok lexical
  | ok (lexical, some anchor) ↦ ok (first_anchor reg anchor lexical scope)
]

first_recursive_root : Registry → SchemaRef → List String → Result SchemaRef
first_recursive_root reg lexical [] = ok lexical
first_recursive_root reg lexical (uri ∷ scope) =
    let further = first_recursive_root reg lexical scope in
    if reg.has_recursive_root uri then reg.root_ref uri else further

-- `resolveRecursive`
unfoldable pub recursive_target : Registry → String → String → List String → Result SchemaRef
unfolding first_recursive_root
recursive_target reg ref base scope = elim (reg.recursive_reference ref base) [
  | err e ↦ err e
  | ok (lexical, false) ↦ ok lexical
  | ok (lexical, true) ↦ first_recursive_root reg lexical scope
]

-- The path of `apply`: one fresh node for each segment.
unfoldable pub extend_path : (ℕ → String) → PathNode → List Segment → ℕ → PathNode × ℕ
extend_path text p [] n = (p, n)
extend_path text p (seg ∷ segs) n =
    extend_path text (path_node n p (escape_segment (segment_text text seg))) segs (n + 1)

unfoldable pub annotation_of : Context → AnnotationRecord
annotation_of x = record {
  behavior_id = x.entry.behavior.id;
  keyword_name = x.entry.name;
  vocabulary_uri = some x.entry.vocabulary_uri;
  schema_ref = x.schema_ref;
  path = x.path;
  cursor = x.cursor;
  value = x.value;
}

unfoldable pub dependency_of : Context → Datum → DependencyRecord
dependency_of x d = record {
  behavior_id = x.entry.behavior.id;
  keyword_name = x.entry.name;
  schema_ref = x.schema_ref;
  path = x.path;
  cursor = x.cursor;
  datum = d;
}

abbrev shows : Context → List String → Scope → DependencyRecord → Bool
shows x ids every d = same_cursor d.cursor x.cursor && member_of d.behavior_id ids
shows x ids adjacent d =
    same_cursor d.cursor x.cursor && member_of d.behavior_id ids && same_path d.path x.path

unfoldable pub select_views :
    Context → List String → Scope → List DependencyRecord → List DependencyView
select_views x ids scope [] = []
select_views x ids scope (d ∷ ds) =
    let rest = select_views x ids scope ds in
    if shows x ids scope d
    then record { behavior_id = d.behavior_id; datum = d.datum } ∷ rest
    else rest

undeclared : List String → List String → Option String
undeclared consumed [] = none
undeclared consumed (i ∷ ids) =
    let rest = undeclared consumed ids in if member_of i consumed then rest else some i

unfoldable pub error_of : Context → String → Option Description → ErrorRecord
error_of x message describe = record {
  keyword_name = some x.entry.name;
  vocabulary_uri = some x.entry.vocabulary_uri;
  schema_ref = x.schema_ref;
  path = x.path;
  cursor = x.cursor;
  message = message;
  describe = describe;
}

module _ (env : Environment) where
  -- whether `shouldRecord` lets an annotation pass
  abbrev pub recorded : String → String → Option String → Bool
  recorded id name vocabulary = elim env.should_record [
    | none ↦ true
    | some test ↦ test id name vocabulary
  ]

  -- `annotate`
  unfoldable pub annotate_step : Context → EvalState → EvalState
  unfolding annotation_of
  annotate_step x s =
      if recorded x.entry.behavior.id x.entry.name (some x.entry.vocabulary_uri)
      then push_annotation (annotation_of x) s
      else s

  abbrev pub eliding : Bool
  eliding = elim env.should_record [ none ↦ false | some test ↦ true ]

  -- `produce`
  unfoldable pub produce_step : Context → Datum → Exec (Unit {0})
  unfolding dependency_of
  produce_step x d s =
      if not (member_of x.entry.behavior.id env.registry.produced_ids)
      then (err (undeclared_production x.entry.behavior.id), s)
      else if eliding && not (member_of x.entry.behavior.id env.registry.consumed_ids)
      then (ok tt, s)
      else (ok tt, push_dependency (dependency_of x d) s)

  -- the check of `visible`
  unfoldable pub consumption_error : List String → Option EngineError
  unfolding undeclared
  consumption_error ids =
      if eliding
      then elim (undeclared env.registry.consumed_ids ids) [
        | none ↦ none
        | some i ↦ some (undeclared_consumption i)
      ]
      else none

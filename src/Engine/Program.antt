-- ===== src/Engine/Program.antt =====
-- packages/core/src/dialect.ts: what a keyword may do, and the dialect that lists the keywords.
-- A keyword reaches the evaluation only through its context, so `evaluate` is a tree of calls of the
-- context's methods: each node is one call and holds how the keyword goes on from the answer.
use json_schema_engine.Base.{ℕ, Bool, Option, List, String, Result, EngineError}
use json_schema_engine.Json.{Json, Members}
use json_schema_engine.Cursor.{Cursor, Segment, SchemaRef}
use json_schema_engine.Engine.State.{Datum, Description}

pub data Scope : Type 0 where
  every adjacent : Scope

-- What `visible` returns of a dependency record.
pub record DependencyView : Type 0 where
  pub behavior_id : String
  pub datum : Datum

-- `child` allocates a child cursor; a compiled regex is its test; `fail` is an
-- exception of the keyword's own code.
pub data Program (A : Type 0) : Type 0 where
  done : A → Program A
  fail : EngineError → Program A
  child : Cursor → Segment → Json → (Cursor → Program A) → Program A
  apply : List Segment → Cursor → (Bool → Program A) → Program A
  resolve_ref : String → (SchemaRef → Program A) → Program A
  resolve_dynamic : String → (SchemaRef → Program A) → Program A
  resolve_recursive : String → (SchemaRef → Program A) → Program A
  apply_resolved : SchemaRef → (Bool → Program A) → Program A
  compile_regex : String → ((String → Bool) → Program A) → Program A
  annotate : Program A → Program A
  produce : Datum → Program A → Program A
  visible : List String → Scope → (List DependencyView → Program A) → Program A
  error : String → Program A → Program A
  report : Description → Program A → Program A

infixl 5 ◌>>=◌
-- `abbrev`, so that a `do` block computes to its calls.
abbrev pub ◌>>=◌ : {A B : Type 0} → Program A → (A → Program B) → Program B
done a >>= f = f a
fail e >>= f = fail e
child c s v k >>= f = child c s v (λ r. k r >>= f)
apply p c k >>= f = apply p c (λ r. k r >>= f)
resolve_ref u k >>= f = resolve_ref u (λ r. k r >>= f)
resolve_dynamic u k >>= f = resolve_dynamic u (λ r. k r >>= f)
resolve_recursive u k >>= f = resolve_recursive u (λ r. k r >>= f)
apply_resolved t k >>= f = apply_resolved t (λ r. k r >>= f)
compile_regex p k >>= f = compile_regex p (λ r. k r >>= f)
annotate k >>= f = annotate (k >>= f)
produce d k >>= f = produce d (k >>= f)
visible ids s k >>= f = visible ids s (λ r. k r >>= f)
error m k >>= f = error m (k >>= f)
report d k >>= f = report d (k >>= f)

-- `evaluate` takes the keyword's value, the cursor and the schema object that holds the keyword.
pub record KeywordBehavior : Type 0 where
  pub id : String
  pub phase : ℕ
  pub structural : Bool
  pub evaluate : Json → Cursor → Members → Program Bool

pub record DialectKeyword : Type 0 where
  pub name : String
  pub behavior : KeywordBehavior
  pub vocabulary_uri : String

-- `keywords` and `ordered` hold the same entries, in the order of registration and of evaluation.
pub record Dialect : Type 0 where
  pub uri : String
  pub keywords : List (String × DialectKeyword)
  pub ordered : List DialectKeyword
  pub allow_unknown_keywords : Bool
  pub ref_ignores_siblings : Bool

-- What the engine asks of the schema registry (registry.ts), whose state it does not change.
pub record Registry : Type 0 where
  pub child : SchemaRef → List Segment → Result SchemaRef
  pub resolve_ref : String → String → Result SchemaRef
  pub dynamic_reference : String → String → Result (SchemaRef × Option String)
  pub dynamic_anchor : String → String → Option SchemaRef
  pub recursive_reference : String → String → Result (SchemaRef × Bool)
  pub has_recursive_root : String → Bool
  pub root_ref : String → Result SchemaRef
  pub dialect_for : String → Result Dialect
  pub produced_ids : List String
  pub consumed_ids : List String

-- What is fixed for one evaluation: the registry, the annotation predicate, the compiled regexes
-- with their cache, the depth bound, and the decimal text of an index.
pub record Environment : Type 0 where
  pub registry : Registry
  pub should_record : Option (String → String → Option String → Bool)
  pub compile_regex : String → Result (String → Bool)
  pub max_depth : ℕ
  pub index_text : ℕ → String

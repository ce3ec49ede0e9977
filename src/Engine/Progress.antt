-- ===== src/Engine/Progress.antt =====
-- packages/core/src/engine.ts: what every step of an evaluation does to the state.
use json_schema_engine.Base.{
  ℕ, Option, none, some, if_holds, Result-cases, ◌≡◌, refl, ◌∙◌, Bool, true, [], ◌∷◌, arith, inl,
  inr, Result, ok, err, Option-cases, Extends, Extends-refl, Extends-trans, Extends-append,
}
use json_schema_engine.Json.{is_some}
use json_schema_engine.Cursor.{Cursor, SchemaRef}
use json_schema_engine.Engine.State.{
  PathNode, EvalState, Trace, Exec, Datum, ErrorRecord, AnnotationRecord, DependencyRecord,
}
use json_schema_engine.Engine.Operations.{map_trace, push_error, push_annotation, push_dependency}
use json_schema_engine.Engine.Program.{
  Program, done, fail, child, apply, resolve_ref, resolve_dynamic, resolve_recursive,
  apply_resolved, compile_regex, annotate, produce, visible, error, report, Environment,
}
use json_schema_engine.Engine.Context.{
  Context, Application, annotate_step, produce_step, consumption_error, dependency_of,
}
use json_schema_engine.Engine.Apply.{run, proceed}

-- The stacks and the depth stay, and the errors and the records of the open frame only grow.
pub record Progress (s t : EvalState) : Type 0 where
  pub outer : t.outer ≡ s.outer
  pub scope : t.dynamic_scope ≡ s.dynamic_scope
  pub depth : t.depth ≡ s.depth
  pub active : t.active ≡ s.active
  pub tracing : is_some t.trace ≡ is_some s.trace
  pub errors : Extends s.errors t.errors
  pub annotations : Extends s.frame.annotations t.frame.annotations
  pub dependencies : Extends s.frame.dependencies t.frame.dependencies

pub Progress-refl : (s : EvalState) → Progress s s
Progress-refl s = record {
  outer = refl;
  scope = refl;
  depth = refl;
  active = refl;
  tracing = refl;
  errors = Extends-refl s.errors;
  annotations = Extends-refl s.frame.annotations;
  dependencies = Extends-refl s.frame.dependencies;
}

pub Progress-trans : {s t u : EvalState} → Progress s t → Progress t u → Progress s u
Progress-trans a b = record {
  outer = b.outer ∙ a.outer;
  scope = b.scope ∙ a.scope;
  depth = b.depth ∙ a.depth;
  active = b.active ∙ a.active;
  tracing = b.tracing ∙ a.tracing;
  errors = Extends-trans a.errors b.errors;
  annotations = Extends-trans a.annotations b.annotations;
  dependencies = Extends-trans a.dependencies b.dependencies;
}

pub map_trace-tracing : (f : Trace → Trace) (o : Option Trace) → is_some (map_trace f o) ≡ is_some o
map_trace-tracing f none = refl
map_trace-tracing f (some t) = refl

-- What a trace says is no part of it.
pub retraced :
    {s t : EvalState} (o : Option Trace)
    → is_some o ≡ is_some t.trace
    → Progress s t
    → Progress s (record t { trace = o })
retraced o e h = record {
  outer = h.outer;
  scope = h.scope;
  depth = h.depth;
  active = h.active;
  tracing = e ∙ h.tracing;
  errors = h.errors;
  annotations = h.annotations;
  dependencies = h.dependencies;
}

pub push_error-Progress : (e : ErrorRecord) (s : EvalState) → Progress s (push_error e s)
unfolding push_error
push_error-Progress e s = record {
  outer = refl;
  scope = refl;
  depth = refl;
  active = refl;
  tracing = refl;
  errors = Extends-append s.errors (e ∷ []);
  annotations = Extends-refl s.frame.annotations;
  dependencies = Extends-refl s.frame.dependencies;
}

pub push_annotation-Progress :
    (a : AnnotationRecord) (s : EvalState) → Progress s (push_annotation a s)
unfolding push_annotation
push_annotation-Progress a s = record {
  outer = refl;
  scope = refl;
  depth = refl;
  active = refl;
  tracing = map_trace-tracing _ s.trace;
  errors = Extends-refl s.errors;
  annotations = Extends-append s.frame.annotations (a ∷ []);
  dependencies = Extends-refl s.frame.dependencies;
}

push_dependency-Progress : (d : DependencyRecord) (s : EvalState) → Progress s (push_dependency d s)
unfolding push_dependency
push_dependency-Progress d s = record {
  outer = refl;
  scope = refl;
  depth = refl;
  active = refl;
  tracing = map_trace-tracing _ s.trace;
  errors = Extends-refl s.errors;
  annotations = Extends-refl s.frame.annotations;
  dependencies = Extends-append s.frame.dependencies (d ∷ []);
}

pub annotate_step-Progress :
    (env : Environment) (x : Context) (s : EvalState) → Progress s (annotate_step env x s)
unfolding annotate_step
annotate_step-Progress env x s =
    if_holds (Progress s) _ (push_annotation-Progress _ s) (Progress-refl s)

pub produce_step-Progress :
    (env : Environment) (x : Context) (d : Datum) (s : EvalState)
    → Progress s (produce_step env x d s).1
unfolding produce_step
produce_step-Progress env x d s =
    ground (arith, Progress-refl s, push_dependency-Progress (dependency_of x d) s)

pub proceed-Progress {ℓ κ} :
    {A : Type ℓ} {B : Type κ} (s : EvalState) (m : Result A × EvalState) (f : A → Exec B)
    → Progress s m.1
    → ((a : A) (t : EvalState) → Progress t (f a t).1)
    → Progress s (proceed m f).1
proceed-Progress s (ok a, t) f k h = Progress-trans k (h a t)
proceed-Progress s (err e, t) f k h = k

-- Only the supply of identities has moved.
allocated : (s : EvalState) (n : ℕ) → Progress s (record s { next_id = n })
allocated s n = record {
  outer = refl;
  scope = refl;
  depth = refl;
  active = refl;
  tracing = refl;
  errors = Extends-refl s.errors;
  annotations = Extends-refl s.frame.annotations;
  dependencies = Extends-refl s.frame.dependencies;
}

abbrev pub Progresses : Application → Type 0
Progresses self =
    (r : SchemaRef) (c : Cursor) (p : PathNode) (s : EvalState) → Progress s (self r c p s).1

module _ (env : Environment) (self : Application) (x : Context) (h : Progresses self) where
  -- A keyword's program makes progress, whatever it calls.
  pub run-Progress :
      (m : Program Bool) (b : Bool) (s : EvalState) → Progress s (run env self x m b s).1
  unfolding run
  run-Progress (done a) b s = Progress-refl s
  run-Progress (fail e) b s = Progress-refl s
  run-Progress (child c seg v k) b s = Progress-trans (allocated s _) (run-Progress (k _) b _)
  run-Progress (apply segs c k) b s = elim (Result-cases (env.registry.child x.schema_ref segs)) [
    | inl (e, missing) ↦ rw (missing, run) (Progress-refl s)
    | inr (target, found) ↦
        rw (found, run)
          (proceed-Progress s _ _ (Progress-trans (allocated s _) (h target c _ _))
            (λ a u. run-Progress (k a) b u))
  ]
  run-Progress (resolve_ref u k) b s =
      proceed-Progress s _ _ (Progress-refl s) (λ a t. run-Progress (k a) b t)
  run-Progress (resolve_dynamic u k) b s =
      proceed-Progress s _ _ (Progress-refl s) (λ a t. run-Progress (k a) b t)
  run-Progress (resolve_recursive u k) b s =
      proceed-Progress s _ _ (Progress-refl s) (λ a t. run-Progress (k a) b t)
  run-Progress (apply_resolved t k) b s =
      proceed-Progress s _ _ (Progress-trans (allocated s _) (h t x.cursor _ _))
        (λ a u. run-Progress (k a) b u)
  run-Progress (compile_regex p k) b s =
      proceed-Progress s _ _ (Progress-refl s) (λ a t. run-Progress (k a) b t)
  run-Progress (annotate k) b s =
      Progress-trans (annotate_step-Progress env x s) (run-Progress k b _)
  run-Progress (produce d k) b s =
      proceed-Progress s _ _ (produce_step-Progress env x d s) (λ a t. run-Progress k b t)
  run-Progress (visible ids sc k) b s = elim (Option-cases (consumption_error env ids)) [
    | inl declared ↦ rw (declared, run) (run-Progress (k _) b s)
    | inr (e, found) ↦ rw (found, run) (Progress-refl s)
  ]
  run-Progress (error m k) b s = Progress-trans (push_error-Progress _ s) (run-Progress k true _)
  run-Progress (report d k) b s = Progress-trans (push_error-Progress _ s) (run-Progress k true _)

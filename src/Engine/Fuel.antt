-- ===== src/Engine/Fuel.antt =====
-- packages/core/src/engine.ts: the depth bound of an evaluation, and the fuel of the model.
use json_schema_engine.Base.{
  ℕ, zero, suc, ◌+◌, ◌≤◌, ◌≡◌, refl, sym, ◌∙◌, ap, Bool, true, false, ◌&&◌, List, [], ◌∷◌, arith,
  leb, length, Bool-cases, inl, inr, Result, ok, err, Result-cases, Option-cases,
  max_depth_exceeded, if◌then◌else◌, le→leb,
}
use json_schema_engine.Json.{Json, Members, object}
use json_schema_engine.Cursor.{Cursor, SchemaRef, ref_key}
use json_schema_engine.Engine.State.{PathNode, EvalState, Exec}
use json_schema_engine.Engine.Operations.{
  trace_enter, enter, scan_active, changes_resource, open_frame, enter_scope, deepen,
}
use json_schema_engine.Engine.Program.{
  Program, done, fail, child, apply, resolve_ref, resolve_dynamic, resolve_recursive,
  apply_resolved, compile_regex, annotate, produce, visible, error, report, DialectKeyword, Dialect,
  Environment,
}
use json_schema_engine.Engine.Context.{Context, Application, consumption_error}
use json_schema_engine.Engine.Apply.{
  run, proceed, conclude, evaluate_keyword, collect_unknown, continue_loop, each, follow,
  evaluate_all, apply_object, apply_node, apply_at_depth, apply_schema, seal, surfaced, node_table,
}
use json_schema_engine.Engine.Progress.{
  Progresses, annotate_step-Progress, produce_step-Progress, push_error-Progress,
}
use json_schema_engine.Engine.Verdict.{evaluate_keyword-Judged}
use json_schema_engine.Engine.Contract.{apply_schema-Settled}

module _ {ℓ κ} {A : Type ℓ} {B : Type κ} (d : ℕ) (f g : A → Exec B) where
  proceed_same :
      (m : Result A × EvalState)
      → m.1.depth ≡ d
      → ((a : A) (t : EvalState) → t.depth ≡ d → f a t ≡ g a t)
      → proceed m f ≡ proceed m g
  proceed_same (ok a, t) e h = h a t e
  proceed_same (err e, t) _ h = refl

  -- Two computations that agree at one depth agree when they are continued at it.
  proceed_agree :
      (m m' : Result A × EvalState)
      → m ≡ m'
      → m.1.depth ≡ d
      → ((a : A) (t : EvalState) → t.depth ≡ d → f a t ≡ g a t)
      → proceed m f ≡ proceed m' g
  proceed_agree m m' e q h = proceed_same m q h ∙ ap (λ n. proceed n g) e

enter-depth : (r : SchemaRef) (c : Cursor) (s : EvalState) → (enter r c s).1.depth ≡ s.depth
unfolding enter
enter-depth r c s = elim (Bool-cases (scan_active (ref_key r) c s.active)) [
  | inl again ↦ rw again
  | inr fresh ↦ rw fresh
]

-- Two recursive calls that agree at every state of depth `d`.
abbrev AgreeAt : ℕ → Application → Application → Type 0
AgreeAt d self other =
    (r : SchemaRef) (c : Cursor) (p : PathNode) (s : EvalState)
    → s.depth ≡ d
    → self r c p s ≡ other r c p s

module _ (env : Environment) (self other : Application) (h : Progresses self) (d : ℕ)
    (agree : AgreeAt d self other) where
  run_agree :
      (x : Context) (m : Program Bool) (b : Bool) (s : EvalState)
      → s.depth ≡ d
      → run env self x m b s ≡ run env other x m b s
  unfolding run
  run_agree x (done a) b s e = refl
  run_agree x (fail a) b s e = refl
  run_agree x (child c seg v k) b s e = run_agree x (k _) b _ e
  run_agree x (apply segs c k) b s e = elim (Result-cases (env.registry.child x.schema_ref segs)) [
    | inl (a, missing) ↦ rw (missing, run)
    | inr (target, found) ↦
        rw (found, run)
          (proceed_agree d _ _ _ _ (agree target c _ _ e) ((h target c _ _).depth ∙ e)
            (λ a t q. run_agree x (k a) b t q))
  ]
  run_agree x (resolve_ref u k) b s e = proceed_same d _ _ _ e (λ a t q. run_agree x (k a) b t q)
  run_agree x (resolve_dynamic u k) b s e =
      proceed_same d _ _ _ e (λ a t q. run_agree x (k a) b t q)
  run_agree x (resolve_recursive u k) b s e =
      proceed_same d _ _ _ e (λ a t q. run_agree x (k a) b t q)
  run_agree x (apply_resolved u k) b s e =
      proceed_agree d _ _ _ _ (agree u x.cursor _ _ e) ((h u x.cursor _ _).depth ∙ e)
        (λ a t q. run_agree x (k a) b t q)
  run_agree x (compile_regex p k) b s e = proceed_same d _ _ _ e (λ a u q. run_agree x (k a) b u q)
  run_agree x (annotate k) b s e = run_agree x k b _ ((annotate_step-Progress env x s).depth ∙ e)
  run_agree x (produce a k) b s e =
      proceed_same d _ _ _ ((produce_step-Progress env x a s).depth ∙ e)
        (λ _ t q. run_agree x k b t q)
  run_agree x (visible ids sc k) b s e = elim (Option-cases (consumption_error env ids)) [
    | inl declared ↦ rw (declared, run) (run_agree x (k _) b s e)
    | inr (a, found) ↦ rw (found, run)
  ]
  run_agree x (error a k) b s e = run_agree x k true _ ((push_error-Progress _ s).depth ∙ e)
  run_agree x (report a k) b s e = run_agree x k true _ ((push_error-Progress _ s).depth ∙ e)

  evaluate_keyword_agree :
      (r : SchemaRef) (ms : Members) (c : Cursor) (p : PathNode) (entry : DialectKeyword)
      (s : EvalState)
      → s.depth ≡ d
      → evaluate_keyword env self r ms c p entry s ≡ evaluate_keyword env other r ms c p entry s
  unfolding evaluate_keyword
  evaluate_keyword_agree r ms c p entry s e =
      ap (λ m. proceed m (conclude entry (length s.errors)))
        (run_agree _ (entry.behavior.evaluate _ c ms) false s e)

  each_agree :
      (r : SchemaRef) (ms : Members) (c : Cursor) (p : PathNode) (xs : List DialectKeyword)
      (v : Bool) (s : EvalState)
      → s.depth ≡ d
      → each (evaluate_keyword env self r ms c p) xs v s
        ≡ each (evaluate_keyword env other r ms c p) xs v s
  unfolding each
  each_agree r ms c p [] v s e = refl
  each_agree r ms c p (x ∷ xs) v s e =
      ap (λ m. continue_loop v m (each (evaluate_keyword env self r ms c p) xs))
        (evaluate_keyword_agree r ms c p x s e)
      ∙ next (evaluate_keyword env other r ms c p x s)
          (ap (λ m. m.1.depth) (sym (evaluate_keyword_agree r ms c p x s e))
            ∙ (evaluate_keyword-Judged env self h r ms c p x s).progress.depth
            ∙ e)
          (each_agree r ms c p xs)
    where
      next :
          (m : Result Bool × EvalState)
          → m.1.depth ≡ d
          → ((w : Bool) (t : EvalState)
              → t.depth ≡ d
              → each (evaluate_keyword env self r ms c p) xs w t
                ≡ each (evaluate_keyword env other r ms c p) xs w t)
          → continue_loop v m (each (evaluate_keyword env self r ms c p) xs)
            ≡ continue_loop v m (each (evaluate_keyword env other r ms c p) xs)
      next (ok b, t) q ih = ih (v && b) t q
      next (err a, t) q ih = refl

  apply_object_agree :
      (dialect : Dialect) (r : SchemaRef) (ms : Members) (c : Cursor) (p : PathNode) (s : EvalState)
      → s.depth ≡ d
      → apply_object env self dialect r ms c p s ≡ apply_object env other dialect r ms c p s
  unfolding apply_object evaluate_all trace_enter open_frame
  apply_object_agree dialect r ms c p s e =
      ap
        (λ m.
          seal (changes_resource r.base_uri s.dynamic_scope)
            (follow m (each (collect_unknown env dialect r ms c p) (node_table ms dialect).1)))
        (each_agree r ms c p (node_table ms dialect).0 true
          (trace_enter r p c
            (open_frame (enter_scope (changes_resource r.base_uri s.dynamic_scope) r.base_uri s)))
          e)

  apply_node_agree :
      (v : Json) (r : SchemaRef) (c : Cursor) (p : PathNode) (s : EvalState)
      → s.depth ≡ d
      → apply_node env self v r c p s ≡ apply_node env other v r c p s
  unfolding apply_node
  apply_node_agree (object ms) r c p s e =
      elim (Result-cases (env.registry.dialect_for r.base_uri)) [
        | inl (a, missing) ↦ rw (missing, apply_node)
        | inr (dialect, found) ↦
            rw (found, apply_node)
              (proceed_same d _ _ (enter r c s) (enter-depth r c s ∙ e)
                (λ _ t q. apply_object_agree dialect r ms c p t q))
      ]
  apply_node_agree _ r c p s e = refl

-- Fuel beyond what the depth bound leaves makes no difference.
fuel_irrelevant :
    (env : Environment) (f g : ℕ) (r : SchemaRef) (c : Cursor) (p : PathNode) (s : EvalState)
    → env.max_depth ≤ f + s.depth
    → env.max_depth ≤ g + s.depth
    → apply_schema env f r c p s ≡ apply_schema env g r c p s
unfolding apply_schema
fuel_irrelevant env zero zero r c p s a b = refl
fuel_irrelevant env zero (suc g) r c p s a b = rw (le→leb env.max_depth s.depth (omega arith))
fuel_irrelevant env (suc f) zero r c p s a b = rw (le→leb env.max_depth s.depth (omega arith))
fuel_irrelevant env (suc f) (suc g) r c p s a b =
    ap (λ m. if leb env.max_depth s.depth then (err max_depth_exceeded, s) else surfaced m)
      (apply_node_agree env (apply_schema env f) (apply_schema env g)
        (λ r' c' p' s'. (apply_schema-Settled env f r' c' p' s').progress) (s.depth + 1)
        (λ r' c' p' s' e. fuel_irrelevant env f g r' c' p' s' (omega (arith, e)) (omega (arith, e)))
        r.node r c p (deepen s) refl)

-- With the fuel that the depth bound asks for, `applySchema` satisfies the recursive equation of the
-- source, in which it calls itself and no fuel stands.
pub apply_schema-recursion :
    (env : Environment) (fuel : ℕ) (r : SchemaRef) (c : Cursor) (p : PathNode) (s : EvalState)
    → env.max_depth ≤ fuel + s.depth
    → apply_schema env fuel r c p s ≡ (
        if leb env.max_depth s.depth
        then (err max_depth_exceeded, s)
        else surfaced (apply_at_depth env (apply_schema env fuel) r c p (deepen s)))
apply_schema-recursion env fuel r c p s enough =
    fuel_irrelevant env fuel (suc fuel) r c p s enough (omega arith) ∙ (unfold apply_schema in refl)

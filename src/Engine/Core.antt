-- ===== src/Engine/Core.antt =====
-- packages/core/src/engine.ts: what of the state a verdict can depend on, and the steps seen there.
use json_schema_engine.Base.{
  ℕ, ◌≡◌, ◌∙◌, ap, Bool, ◌&&◌, List, [], ◌∷◌, ◌++◌, some, Option, String, map, arith, Result, ok,
  err, if◌then◌else◌,
}
use json_schema_engine.Cursor.{Cursor}
use json_schema_engine.Engine.State.{EvalState, Exec, Frame, ErrorRecord, DependencyRecord}
use json_schema_engine.Engine.Operations.{push_error, push_annotation, close_onto, drop_top, finish}
use json_schema_engine.Engine.Program.{Environment}
use json_schema_engine.Engine.Context.{Context, annotate_step}
use json_schema_engine.Engine.Apply.{proceed, continue_loop, each, follow, seal}

-- What a verdict can depend on: all of the state but the annotations and the trace.
pub record Core : Type 0 where
  pub dependencies : List DependencyRecord
  pub outer : List (List DependencyRecord)
  pub errors : List ErrorRecord
  pub dynamic_scope : List String
  pub depth : ℕ
  pub active : List (String × Cursor)
  pub next_id : ℕ

abbrev pub core : EvalState → Core
core s = record {
  dependencies = s.frame.dependencies;
  outer = map (λ f. f.dependencies) s.outer;
  errors = s.errors;
  dynamic_scope = s.dynamic_scope;
  depth = s.depth;
  active = s.active;
  next_id = s.next_id;
}

abbrev pub observe {ℓ} : {A : Type ℓ} → Result A × EvalState → Result A × Core
observe (r, s) = (r, core s)

-- The environment with another predicate for the annotations to record.
abbrev pub selecting : (String → String → Option String → Bool) → Environment → Environment
selecting f env = record env { should_record = some f }

pub annotate_step-core :
    (env : Environment) (x : Context) (s : EvalState) → core (annotate_step env x s) ≡ core s
unfolding annotate_step push_annotation
annotate_step-core env x s = ground arith

pub moved :
    (s t : EvalState) (n : ℕ)
    → core s ≡ core t
    → core (record s { next_id = n }) ≡ core (record t { next_id = n })
moved s t n e = ap {A = Core} (λ q. record q { next_id = n }) e

pub push_error_same :
    (s t : EvalState) (a : ErrorRecord)
    → core s ≡ core t
    → core (push_error a s) ≡ core (push_error a t)
unfolding push_error
push_error_same s t a e = ap {A = Core} (λ q. record q { errors = q.errors ++ a ∷ [] }) e

pub proceed_same :
    {A B : Type 0} (f g : A → Exec B) (m m' : Result A × EvalState)
    → observe m ≡ observe m'
    → ((a : A) (s t : EvalState) → core s ≡ core t → observe (f a s) ≡ observe (g a t))
    → observe (proceed m f) ≡ observe (proceed m' g)
proceed_same f g (ok a, s) (ok b, t) e h =
    let same : a ≡ b = cc in h a s t (ap (λ q. q.1) e) ∙ ap (λ y. observe (g y t)) same
proceed_same f g (ok a, s) (err b, t) e h = cc
proceed_same f g (err a, s) (ok b, t) e h = cc
proceed_same f g (err a, s) (err b, t) e h = cc

abbrev pub observe_loop : Result (Unit {0}) × Bool × EvalState → Result (Unit {0}) × Bool × Core
observe_loop (r, v, s) = (r, v, core s)

pub continue_same :
    (f g : Bool → EvalState → Result (Unit {0}) × Bool × EvalState) (v : Bool)
    (m m' : Result Bool × EvalState)
    → observe m ≡ observe m'
    → ((w : Bool) (s t : EvalState) → core s ≡ core t → observe_loop (f w s) ≡ observe_loop (g w t))
    → observe_loop (continue_loop v m f) ≡ observe_loop (continue_loop v m' g)
continue_same f g v (ok a, s) (ok b, t) e h =
    let same : a ≡ b = cc in
    h (v && a) s t (ap (λ q. q.1) e) ∙ ap (λ y. observe_loop (g (v && y) t)) same
continue_same f g v (ok a, s) (err b, t) e h = cc
continue_same f g v (err a, s) (ok b, t) e h = cc
continue_same f g v (err a, s) (err b, t) e h = cc

pub follow_same :
    (f g : Bool → EvalState → Result (Unit {0}) × Bool × EvalState)
    (m m' : Result (Unit {0}) × Bool × EvalState)
    → observe_loop m ≡ observe_loop m'
    → ((w : Bool) (s t : EvalState) → core s ≡ core t → observe_loop (f w s) ≡ observe_loop (g w t))
    → observe_loop (follow m f) ≡ observe_loop (follow m' g)
follow_same f g (ok a, v, s) (ok b, w, t) e h =
    h v s t (ap (λ q. q.2) e) ∙ ap (λ y. observe_loop (g y t)) (ap (λ q. q.1) e)
follow_same f g (ok a, v, s) (err b, w, t) e h = cc
follow_same f g (err a, v, s) (ok b, w, t) e h = cc
follow_same f g (err a, v, s) (err b, w, t) e h = cc

pub each_same {ℓ} :
    {A : Type ℓ} (f g : A → Exec Bool)
    → ((a : A) (s t : EvalState) → core s ≡ core t → observe (f a s) ≡ observe (g a t))
    → (xs : List A) (v : Bool) (s t : EvalState) → core s ≡ core t
    → observe_loop (each f xs v s) ≡ observe_loop (each g xs v t)
unfolding each
each_same f g h [] v s t e = ap (λ q. (ok tt, v, q)) e
each_same f g h (x ∷ xs) v s t e =
    continue_same _ _ v _ _ (h x s t e) (λ w u z q. each_same f g h xs w u z q)

close_same :
    (valid : Bool) (s t : EvalState) (ls lt : List Frame)
    → map (λ f. f.dependencies) ls ≡ map (λ f. f.dependencies) lt
    → core s ≡ core t
    → core (close_onto valid s ls) ≡ core (close_onto valid t lt)
close_same valid s t [] [] d e = e
close_same valid s t (a ∷ rest) [] d e = cc
close_same valid s t [] (b ∷ bs) d e = cc
close_same valid s t (a ∷ rest) (b ∷ rest') d e = ground arith

pub finish_same :
    (valid pushed : Bool) (s t : EvalState)
    → core s ≡ core t
    → core (finish valid pushed s) ≡ core (finish valid pushed t)
unfolding finish
finish_same valid pushed s t e =
    ap {A = Core}
      (λ q. record q {
        dynamic_scope = if pushed then drop_top q.dynamic_scope else q.dynamic_scope;
        active = drop_top q.active;
      })
      (close_same valid s t s.outer t.outer (ap (λ q. q.outer) e) e)

pub seal_same :
    (pushed : Bool) (m m' : Result (Unit {0}) × Bool × EvalState)
    → observe_loop m ≡ observe_loop m'
    → observe (seal pushed m) ≡ observe (seal pushed m')
seal_same pushed (ok a, v, s) (ok b, w, t) e =
    let same : v ≡ w = ap (λ q. q.1) e in
    ap (λ q. (ok v, q)) (finish_same v pushed s t (ap (λ q. q.2) e))
    ∙ ap (λ y. observe (seal pushed (ok tt, y, t))) same
seal_same pushed (ok a, v, s) (err b, w, t) e = cc
seal_same pushed (err a, v, s) (ok b, w, t) e = cc
seal_same pushed (err a, v, s) (err b, w, t) e =
    let same : v ≡ w = ap (λ q. q.1) e in
    let thrown : a ≡ b = cc in
    ap (λ q. (err a, q)) (finish_same v pushed s t (ap (λ q. q.2) e))
    ∙ ap (λ y. observe {A = Bool} (err a, finish y pushed t)) same
    ∙ ap (λ z. observe {A = Bool} (err z, finish w pushed t)) thrown
